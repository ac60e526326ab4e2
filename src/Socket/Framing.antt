-- ===== src/Socket/Framing.antt =====
-- What is written to the socket (PublishToUnixSocket of pkg/dtlWithSocket/dtlSocket.go), as a reader
-- of the stream takes it apart.
use osmosis_publisher.Prelude.{
  arith, ℕ, zero, suc, ltb, ◌<◌, ◌^◌, Text, List, [], ◌∷◌, ◌++◌, All, length, take, drop,
  append_assoc, length-append, Option, none, some, if◌then◌else◌, padded, value, length-padded,
  value-padded, ◌≡◌, refl, ap, le→ltb,
}
use osmosis_publisher.Socket.{frame}

-- A reader takes ten digits, and as many bytes as they say.
unfoldable read_frame : Text → Option (Text × Text)
read_frame stream =
    let n = value (take 10 stream) 0 in
    let rest = drop 10 stream in
    if ltb (length stream) 10
    then none
    else (if ltb (length rest) n then none else some (take n rest, drop n rest))

unfoldable pub read_frames : ℕ → Text → List Text
unfolding read_frame
read_frames zero stream = []
read_frames (suc fuel) stream = elim (read_frame stream) [
  | none ↦ []
  | some (body, rest) ↦ body ∷ read_frames fuel rest
]

unfoldable pub frames : List Text → Text
unfolding frame
frames [] = []
frames (body ∷ bodies) = frame body ++ frames bodies

module _ {A : Type 0} where
  take-append : (xs ys : List A) (n : ℕ) → length xs ≡ n → take n (xs ++ ys) ≡ xs
  take-append [] ys zero e = refl
  take-append [] ys (suc n) e = absurd (omega arith)
  take-append (x ∷ xs) ys zero e = absurd (omega arith)
  take-append (x ∷ xs) ys (suc n) e = ap (◌∷◌ x) (take-append xs ys n (omega arith))

  drop-append : (xs ys : List A) (n : ℕ) → length xs ≡ n → drop n (xs ++ ys) ≡ ys
  drop-append [] ys zero e = refl
  drop-append [] ys (suc n) e = absurd (omega arith)
  drop-append (x ∷ xs) ys zero e = absurd (omega arith)
  drop-append (x ∷ xs) ys (suc n) e = drop-append xs ys n (omega arith)

-- A message of fewer than 10 ^ 10 bytes is read back, whatever follows.
read_frame-frame :
    (body rest : Text) → length body < 10 ^ 10 → read_frame (frame body ++ rest) ≡ some (body, rest)
unfolding read_frame frame
read_frame-frame body rest h =
    let ten = length-padded 10 (length body) (omega arith) h in
    rw
      (
        append_assoc (padded 10 (length body)) body rest,
        take-append (padded 10 (length body)) (body ++ rest) 10 ten,
        drop-append (padded 10 (length body)) (body ++ rest) 10 ten,
        value-padded 10 (length body),
        le→ltb (length (padded 10 (length body) ++ (body ++ rest))) 10
            (omega (arith, ten, length-append (padded 10 (length body)) (body ++ rest))),
        le→ltb (length (body ++ rest)) (length body) (omega (arith, length-append body rest)),
        take-append body rest (length body) refl,
        drop-append body rest (length body) refl,
      )
      refl

pub read_frames-frames :
    (bodies : List Text)
    → All (λ body. length body < 10 ^ 10) bodies
    → read_frames (length bodies) (frames bodies) ≡ bodies
unfolding read_frames frames
read_frames-frames [] h = refl
read_frames-frames (body ∷ bodies) (h, hs) =
    rw (read_frames, read_frame-frame body (frames bodies) h)
      (ap (◌∷◌ body) (read_frames-frames bodies hs))
