-- ===== src/Socket/Streaming.antt =====
-- Publish of pkg/dtlWithSocket/dtlSocket.go, one message after the other, as the reader of the
-- socket sees it.
use osmosis_publisher.Prelude.{
  ◌<◌, ◌^◌, Text, codes, List, [], ◌∷◌, ◌++◌, append_assoc, append-nil, length, none, some, true,
  All, inl, ◌≡◌, refl, sym, ◌∙◌,
}
use osmosis_publisher.Socket.{
  Outlet, Service, has_suffix, frame, with_socket, publish_to_unix_socket, publish,
}
use osmosis_publisher.Socket.Framing.{read_frames, frames, read_frames-frames}

-- What the reader has got so far: a write that reports no error has brought all of its bytes.
pub record Delivers {N C M Opts : Type 0} (out : Outlet N C M Opts) : Type 0 where
  pub received : N → Text
  pub written :
      (n : N) (c : C) (t : Text)
      → (out.write n c t).0 ≡ none
      → received (out.write n c t).1 ≡ received n ++ t
  pub published : (n : N) (m : M) (s : Text) → received (out.publish_to n m s).1 ≡ received n

module _ {N C M Opts : Type 0} (out : Outlet N C M Opts) where
  -- Each message and its data.
  unfoldable pub AreMarshalled : List M → List Text → Type 0
  AreMarshalled [] [] = Unit
  AreMarshalled [] (b ∷ bs) = ⊥
  AreMarshalled (m ∷ ms) [] = ⊥
  AreMarshalled (m ∷ ms) (b ∷ bs) = (out.marshal m ≡ inl b) × AreMarshalled ms bs

  unfoldable pub publish_all : List Text → List M → Service C × N → Service C × N
  publish_all suffixes [] w = w
  publish_all suffixes (m ∷ ms) w = publish_all suffixes ms (publish out m suffixes w).1

  module _ (net : Delivers out) (suffixes : List Text) (c : C)
      (to_socket : has_suffix (out.subject suffixes) (codes ".tx") ≡ true)
      (writes : (n : N) (t : Text) → (out.write n c t).0 ≡ none) where
    written_frame :
        (m : M) (body : Text) (s : Service C) (n : N)
        → out.marshal m ≡ inl body
        → s.socket ≡ some c
        → publish_to_unix_socket out m (s, n) ≡ (s, (out.write n c (frame body)).1)
    unfolding publish_to_unix_socket with_socket
    written_frame m body s n h up =
        let ready : with_socket out (s, n) ≡ (some c, (s, n)) = simp (with_socket, up) in
        simp (publish_to_unix_socket, ready, h, writes n (frame body))

    -- A publish on an open socket keeps it, and brings the frame.
    publish_sent :
        (m : M) (body : Text) (s : Service C) (n : N)
        → out.marshal m ≡ inl body
        → s.socket ≡ some c
        → ((publish out m suffixes (s, n)).1.0 ≡ s)
          × (net.received (publish out m suffixes (s, n)).1.1 ≡ net.received n ++ frame body)
    unfolding publish
    publish_sent m body s n h up =
        rw (publish, to_socket, written_frame m body s n h up)
          (
            refl,
            net.published (out.write n c (frame body)).1 m (out.subject suffixes)
                ∙ net.written n c (frame body) (writes n (frame body)),
          )

    publish_all_received :
        (ms : List M) (bodies : List Text) (s : Service C) (n : N)
        → AreMarshalled ms bodies
        → s.socket ≡ some c
        → net.received (publish_all suffixes ms (s, n)).1 ≡ net.received n ++ frames bodies
    unfolding AreMarshalled publish_all frames
    publish_all_received [] [] s n h up = sym (append-nil (net.received n))
    publish_all_received [] (b ∷ bs) s n h up = absurd h
    publish_all_received (m ∷ ms) [] s n h up = absurd h
    publish_all_received (m ∷ ms) (b ∷ bs) s n (h, hs) up =
        let (kept, sent) = publish_sent m b s n h up in
        let w = (publish out m suffixes (s, n)).1 in
        publish_all_received ms bs w.0 w.1 hs (rw kept up)
        ∙ rw sent (append_assoc (net.received n) (frame b) (frames bs))

    -- If the subject ends in .tx, the socket is open, no write to it fails, each message is
    -- serialized to fewer than 10 ^ 10 bytes, and the reader of the connection has nothing yet,
    -- it reads from what it gets the data of the messages that are published, in their order.
    pub publish_all-read_frames :
        (ms : List M) (bodies : List Text) (s : Service C) (n : N)
        → AreMarshalled ms bodies
        → All (λ body. length body < 10 ^ 10) bodies
        → s.socket ≡ some c
        → net.received n ≡ []
        → read_frames (length bodies) (net.received (publish_all suffixes ms (s, n)).1) ≡ bodies
    publish_all-read_frames ms bodies s n h small up start =
        rw (publish_all_received ms bodies s n h up, start) (read_frames-frames bodies small)
