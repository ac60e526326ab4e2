-- ===== src/Socket.antt =====
-- The service that also publishes to a Unix socket (pkg/dtlWithSocket/dtlSocket.go). The socket is
-- the open connection, if there is one; the data-layer SDK, net and encoding/json are the argument.
pub mod Framing
pub mod Connecting
pub mod Streaming
use osmosis_publisher.Prelude.{
  ℕ, leb, ◌-◌, Text, codes, List, [], ◌∷◌, ◌++◌, Option, none, some, Bool, true, false, ◌&&◌,
  text_beq, drop, length, is_empty, if◌then◌else◌, padded, ◌⊎◌, inl, inr,
}
use osmosis_publisher.Types.{Error}

-- What is outside: `configure` answers with an error and the parameter SocketAddr, if it is set to
-- a string.
pub record Outlet (N C M Opts : Type 0) : Type 0 where
  pub dial : N → Text → (C ⊎ Error) × N
  pub close_conn : N → C → N
  pub write : N → C → Text → Option Error × N
  pub marshal : M → Text ⊎ Error
  pub subject : List Text → Text
  pub publish_to : N → M → Text → Option Error × N
  pub configure_service : N → Opts → (Option Error × Option Text) × N
  pub close_service : N → N

pub record Service (C : Type 0) : Type 0 where
  pub socket : Option C
  pub socket_addr : Text

-- strings.HasSuffix
unfoldable pub has_suffix : Text → Text → Bool
has_suffix s t = leb (length t) (length s) && text_beq (drop (length s - length t) s) t

-- The message that is written: its length, of ten digits, and its data.
unfoldable pub frame : Text → Text
frame body = padded 10 (length body) ++ body

module _ {N C M Opts : Type 0} (out : Outlet N C M Opts) where
  unfoldable pub close_unix_socket : Service C × N → Service C × N
  close_unix_socket (s, n) = elim s.socket [
    | none ↦ (s, n)
    | some c ↦ (record s { socket = none }, out.close_conn n c)
  ]

  unfoldable pub close : Service C × N → Service C × N
  unfolding close_unix_socket
  close (s, n) = close_unix_socket (s, out.close_service n)

  unfoldable pub init_unix_socket : Service C × N → Option Error × (Service C × N)
  unfolding close_unix_socket
  init_unix_socket w =
      let (s, n) = close_unix_socket w in
      if is_empty s.socket_addr
      then (some (codes "socket address is empty" ∷ []), (s, n))
      else (let dialled = out.dial n s.socket_addr in
          elim dialled.0 [
            | inr e ↦ (some (codes "failed to open Unix socket" ∷ e), (s, dialled.1))
            | inl c ↦ (none, (record s { socket = some c }, dialled.1))
          ])

  -- An open socket, or the one that can be opened now.
  unfoldable pub with_socket : Service C × N → Option C × (Service C × N)
  unfolding init_unix_socket
  with_socket (s, n) = elim s.socket [
    | some c ↦ (some c, (s, n))
    | none ↦
        (let opened = init_unix_socket (s, n) in
          elim opened.0 [ some e ↦ (none, opened.1) | none ↦ (opened.1.0.socket, opened.1) ])
  ]

  -- The message is dropped if there is no socket, or it cannot be serialized; after a failed write
  -- the socket is closed.
  unfoldable pub publish_to_unix_socket : M → Service C × N → Service C × N
  unfolding with_socket frame close_unix_socket
  publish_to_unix_socket msg w =
      let ready = with_socket w in
      let s = ready.1.0 in
      let n = ready.1.1 in
      elim ready.0 [
        | none ↦ (s, n)
        | some c ↦ elim (out.marshal msg) [
          | inr e ↦ (s, n)
          | inl body ↦
              let written = out.write n c (frame body) in
              elim written.0 [ none ↦ (s, written.1) | some e ↦ close_unix_socket (s, written.1) ]
        ]
      ]

  unfoldable pub publish : M → List Text → Service C × N → Option Error × (Service C × N)
  unfolding publish_to_unix_socket has_suffix
  publish msg suffixes w =
      let subject = out.subject suffixes in
      let (s, n) = if has_suffix subject (codes ".tx") then publish_to_unix_socket msg w else w in
      let (e, n') = out.publish_to n msg subject in (e, (s, n'))

  unfoldable pub configure : Opts → Service C × N → Option Error × (Service C × N)
  unfolding init_unix_socket
  configure opts (s, n) =
      let configured = out.configure_service n opts in
      elim configured.0.0 [
        | some e ↦ (some e, (s, configured.1))
        | none ↦ elim configured.0.1 [
          | none ↦ (none, (s, configured.1))
          | some addr ↦
              if is_empty addr
              then (none, (s, configured.1))
              else (let opened = init_unix_socket (record s { socket_addr = addr }, configured.1) in
                  elim opened.0 [
                    | some e ↦ (some (codes "failed to initialize Unix socket" ∷ e), opened.1)
                    | none ↦ (none, opened.1)
                  ])
        ]
      ]
