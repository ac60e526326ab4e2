-- ===== src/Socket/Connecting.antt =====
-- The connections of the service of pkg/dtlWithSocket/dtlSocket.go, and what goes over them.
use osmosis_publisher.Prelude.{
  Text, codes, List, [], ◌∷◌, none, option_list, is_empty, inl, inr, ◌≡◌, refl, ap, ◌∙◌, Bool-cases,
  Option-cases, Sum-cases,
}
use osmosis_publisher.Types.{Error}
use osmosis_publisher.Socket.{
  Outlet, Service, has_suffix, frame, close_unix_socket, close, init_unix_socket, with_socket,
  publish_to_unix_socket, publish, configure,
}

-- What net says of the connections that are open, the latest first.
pub record Connects {N C M Opts : Type 0} (out : Outlet N C M Opts) : Type 0 where
  pub conns : N → List C
  pub dialled :
      (n : N) (addr : Text) (c : C)
      → (out.dial n addr).0 ≡ inl c
      → conns (out.dial n addr).1 ≡ c ∷ conns n
  pub not_dialled :
      (n : N) (addr : Text) (e : Error)
      → (out.dial n addr).0 ≡ inr e
      → conns (out.dial n addr).1 ≡ conns n
  pub closed :
      (n : N) (c : C) (rest : List C) → conns n ≡ c ∷ rest → conns (out.close_conn n c) ≡ rest
  pub written : (n : N) (c : C) (t : Text) → conns (out.write n c t).1 ≡ conns n
  pub published : (n : N) (m : M) (s : Text) → conns (out.publish_to n m s).1 ≡ conns n
  pub configured : (n : N) (o : Opts) → conns (out.configure_service n o).1 ≡ conns n
  pub service_closed : (n : N) → conns (out.close_service n) ≡ conns n

pub data Call (M Opts : Type 0) : Type 0 where
  call_publish : M → List Text → Call M Opts
  call_configure : Opts → Call M Opts
  call_init : Call M Opts
  call_close : Call M Opts

module _ {N C M Opts : Type 0} (out : Outlet N C M Opts) where
  unfoldable pub answer : Call M Opts → Service C × N → Service C × N
  answer (call_publish m suffixes) w = (publish out m suffixes w).1
  answer (call_configure o) w = (configure out o w).1
  answer call_init w = (init_unix_socket out w).1
  answer call_close w = close out w

  unfoldable pub answer_all : List (Call M Opts) → Service C × N → Service C × N
  unfolding answer
  answer_all [] w = w
  answer_all (c ∷ cs) w = answer_all cs (answer c w)

  module _ (net : Connects out) where
    -- The one connection that is open is the socket's.
    unfoldable pub IsOnlySocket : Service C × N → Type 0
    IsOnlySocket (s, n) = net.conns n ≡ option_list s.socket

    close_unix_socket-none :
        (w : Service C × N)
        → IsOnlySocket w
        → ((close_unix_socket out w).0.socket ≡ none) × (net.conns (close_unix_socket out w).1 ≡ [])
    unfolding close_unix_socket IsOnlySocket
    close_unix_socket-none (s, n) h = elim (Option-cases s.socket) [
      | inl e ↦ rw (close_unix_socket, e) (e, h ∙ ap option_list e)
      | inr (c, e) ↦ rw (close_unix_socket, e) (refl, net.closed n c [] (h ∙ ap option_list e))
    ]

    close_unix_socket-IsOnlySocket :
        (w : Service C × N) → IsOnlySocket w → IsOnlySocket (close_unix_socket out w)
    unfolding IsOnlySocket
    close_unix_socket-IsOnlySocket w h =
        let (gone, empty) = close_unix_socket-none w h in rw gone empty

    init_unix_socket-IsOnlySocket :
        (w : Service C × N) → IsOnlySocket w → IsOnlySocket (init_unix_socket out w).1
    unfolding init_unix_socket IsOnlySocket
    init_unix_socket-IsOnlySocket w h =
        let (s, n) = close_unix_socket out w in
        let (gone, empty) = close_unix_socket-none w h in
        elim (Bool-cases (is_empty s.socket_addr)) [
          | inl t ↦ rw (init_unix_socket, t) (rw gone empty)
          | inr f ↦ elim (Sum-cases (out.dial n s.socket_addr).0) [
            | inl (c, e) ↦
                rw (init_unix_socket, f, e) (net.dialled n s.socket_addr c e ∙ ap (◌∷◌ c) empty)
            | inr (x, e) ↦
                rw (init_unix_socket, f, e) (net.not_dialled n s.socket_addr x e ∙ (rw gone empty))
          ]
        ]

    with_socket-IsOnlySocket :
        (w : Service C × N) → IsOnlySocket w → IsOnlySocket (with_socket out w).1
    unfolding with_socket
    with_socket-IsOnlySocket (s, n) h = elim (Option-cases s.socket) [
      | inl e ↦ elim (Option-cases (init_unix_socket out (s, n)).0) [
        | inl k ↦ rw (with_socket, e, k) (init_unix_socket-IsOnlySocket (s, n) h)
        | inr (x, k) ↦ rw (with_socket, e, k) (init_unix_socket-IsOnlySocket (s, n) h)
      ]
      | inr (c, e) ↦ rw (with_socket, e) h
    ]

    publish_to_unix_socket-IsOnlySocket :
        (m : M) (w : Service C × N) → IsOnlySocket w → IsOnlySocket (publish_to_unix_socket out m w)
    unfolding publish_to_unix_socket IsOnlySocket
    publish_to_unix_socket-IsOnlySocket m w h =
        let ready = with_socket out w in
        let s = ready.1.0 in
        let n = ready.1.1 in
        let ok = with_socket-IsOnlySocket w h in
        elim (Option-cases ready.0) [
          | inl e ↦ rw (publish_to_unix_socket, e) ok
          | inr (c, e) ↦ elim (Sum-cases (out.marshal m)) [
            | inr (x, k) ↦ rw (publish_to_unix_socket, e, k) ok
            | inl (body, k) ↦
                let written = out.write n c (frame body) in
                let after : IsOnlySocket (s, written.1) = net.written n c (frame body) ∙ ok in
                elim (Option-cases written.0) [
                  | inl q ↦ rw (publish_to_unix_socket, e, k, q) after
                  | inr (x, q) ↦
                      rw (publish_to_unix_socket, e, k, q)
                        (close_unix_socket-IsOnlySocket (s, written.1) after)
                ]
          ]
        ]

    publish-IsOnlySocket :
        (m : M) (suffixes : List Text) (w : Service C × N)
        → IsOnlySocket w
        → IsOnlySocket (publish out m suffixes w).1
    unfolding publish IsOnlySocket
    publish-IsOnlySocket m suffixes w h =
        let subject = out.subject suffixes in
        elim (Bool-cases (has_suffix subject (codes ".tx"))) [
          | inl t ↦
              rw (publish, t)
                (net.published (publish_to_unix_socket out m w).1 m subject
                  ∙ publish_to_unix_socket-IsOnlySocket m w h)
          | inr f ↦ rw (publish, f) (net.published w.1 m subject ∙ h)
        ]

    configure-IsOnlySocket :
        (o : Opts) (w : Service C × N) → IsOnlySocket w → IsOnlySocket (configure out o w).1
    unfolding configure IsOnlySocket
    configure-IsOnlySocket o (s, n) h =
        let configured = out.configure_service n o in
        let same = net.configured n o ∙ h in
        elim (Option-cases configured.0.0) [
          | inr (x, e) ↦ rw (configure, e) same
          | inl e ↦ elim (Option-cases configured.0.1) [
            | inl k ↦ rw (configure, e, k) same
            | inr (addr, k) ↦ elim (Bool-cases (is_empty addr)) [
              | inl t ↦ rw (configure, e, k, t) same
              | inr f ↦
                  let w' : Service C × N = (record s { socket_addr = addr }, configured.1) in
                  let done = init_unix_socket-IsOnlySocket w' same in
                  elim (Option-cases (init_unix_socket out w').0) [
                    | inl q ↦ rw (configure, e, k, f, q) done
                    | inr (x, q) ↦ rw (configure, e, k, f, q) done
                  ]
            ]
          ]
        ]

    -- Whatever calls come in, and whatever fails: if the socket's connection, if it has one, is
    -- the only one that is open, it is so after them.
    pub answer_all-IsOnlySocket :
        (calls : List (Call M Opts)) (w : Service C × N)
        → IsOnlySocket w
        → IsOnlySocket (answer_all calls w)
    unfolding answer_all answer close IsOnlySocket
    answer_all-IsOnlySocket [] w h = h
    answer_all-IsOnlySocket (call_publish m suffixes ∷ cs) w h =
        answer_all-IsOnlySocket cs _ (publish-IsOnlySocket m suffixes w h)
    answer_all-IsOnlySocket (call_configure o ∷ cs) w h =
        answer_all-IsOnlySocket cs _ (configure-IsOnlySocket o w h)
    answer_all-IsOnlySocket (call_init ∷ cs) w h =
        answer_all-IsOnlySocket cs _ (init_unix_socket-IsOnlySocket w h)
    answer_all-IsOnlySocket (call_close ∷ cs) (s, n) h =
        answer_all-IsOnlySocket cs _
          (close_unix_socket-IsOnlySocket (s, out.close_service n) (net.service_closed n ∙ h))
