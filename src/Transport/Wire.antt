-- ===== src/Transport/Wire.antt =====
-- What a peer of crates/sigil-cluster/src/transport.rs reads is what was written.
use sigil_siem.Prelude.{
  ℕ, suc, ◌+◌, ◌%◌, ◌^◌, ◌≤◌, ◌<◌, ◌≡◌, refl, ap, ◌∙◌, some, List, [], ◌∷◌, ◌++◌, length, take,
  drop, arith, All, append_assoc, append-nil, sym, ◌-◌, length-append,
}
use native.Mathlib.Nat.{zero-add, suc-add}
use sigil_siem.Prelude.Texts.{Text}
use sigil_siem.Transport.Utf8.{as_bytes}
use sigil_siem.Transport.Topics.{IsChar, from_utf8_lossy-as_bytes}
use sigil_siem.Transport.Frames.{
  read_stream, max_frame, write_u32, write_frame, read_u32, read_exact, FrameError, read,
  oversized_topic, oversized_payload, Parsed, frame, failed, read_field, read_frame, read_frames,
}

read_u32-write_u32 :
    (n : ℕ) (rest : List ℕ) → n < 2 ^ 32 → read_u32 (write_u32 n ++ rest) ≡ some (n, rest)
unfolding read_u32 write_u32
read_u32-write_u32 n rest h = ground arith

take-length : {A : Type 0} (xs ys : List A) → take (length xs) (xs ++ ys) ≡ xs
take-length [] ys = refl
take-length (x ∷ xs) ys = ap (λ l. x ∷ l) (take-length xs ys)

drop-length : {A : Type 0} (xs ys : List A) → drop (length xs) (xs ++ ys) ≡ ys
drop-length [] ys = refl
drop-length (x ∷ xs) ys = drop-length xs ys

read_exact-append : (xs rest : List ℕ) → read_exact (length xs) (xs ++ rest) ≡ some (xs, rest)
unfolding read_exact
read_exact-append xs rest =
    ground (arith, length-append xs rest, take-length xs rest, drop-length xs rest)

read_field-write :
    (e : FrameError) (xs rest : List ℕ) (k : List ℕ → List ℕ → Parsed)
    → length xs ≤ max_frame
    → read_field e (write_u32 (length xs % 2 ^ 32) ++ (xs ++ rest)) k ≡ k xs rest
unfolding read_field
read_field-write e xs rest k h =
    ground (arith, read_u32-write_u32 (length xs % 2 ^ 32) (xs ++ rest), read_exact-append xs rest)

read_field-oversized :
    (e : FrameError) (xs rest : List ℕ) (k : List ℕ → List ℕ → Parsed)
    → max_frame < length xs
    → length xs < 2 ^ 32
    → read_field e (write_u32 (length xs % 2 ^ 32) ++ (xs ++ rest)) k ≡ failed e
unfolding read_field
read_field-oversized e xs rest k h w =
    ground (arith, read_u32-write_u32 (length xs % 2 ^ 32) (xs ++ rest))

-- A frame within the bounds is read back, and leaves what follows it.
pub read_frame-write_frame :
    (topic : Text) (payload rest : List ℕ)
    → All IsChar topic
    → length (as_bytes topic) ≤ max_frame
    → length payload ≤ max_frame
    → read_frame (write_frame topic payload ++ rest) ≡ frame topic payload rest
unfolding read_frame write_frame
read_frame-write_frame topic payload rest c t p = simp append_assoc (
    read_field-write oversized_topic (as_bytes topic) _ _ t
    ∙ read_field-write oversized_payload payload rest _ p
    ∙ ap (λ s. frame s payload rest) (from_utf8_lossy-as_bytes topic c))

-- The frames of a list, written one after another.
abbrev pub write_all : List (Text × List ℕ) → List ℕ
write_all [] = []
write_all ((topic, payload) ∷ fs) = write_frame topic payload ++ write_all fs

-- A topic of characters, and both fields of at most 16 MiB.
abbrev pub IsSmall : Text × List ℕ → Type 0
IsSmall f = All IsChar f.0 × (length (as_bytes f.0) ≤ max_frame) × (length f.1 ≤ max_frame)

-- What is published of a stream in which `fs` come first.
abbrev before :
    List (Text × List ℕ) → List (Text × List ℕ) × FrameError → List (Text × List ℕ) × FrameError
before fs r = (fs ++ r.0, r.1)

read_frames-frame :
    (k : ℕ) (s : List ℕ) (topic : Text) (payload rest : List ℕ)
    → read_frame s ≡ frame topic payload rest
    → read_frames (suc k) s ≡ before ((topic, payload) ∷ []) (read_frames k rest)
unfolding read_frames
read_frames-frame k s topic payload rest h = ground arith

read_frames-failed :
    (k : ℕ) (s : List ℕ) (e : FrameError)
    → read_frame s ≡ failed e
    → read_frames (suc k) s ≡ ([], e)
unfolding read_frames
read_frames-failed k s e h = ground arith

read_frames-write_all :
    (k : ℕ) (fs : List (Text × List ℕ)) (s : List ℕ)
    → All IsSmall fs
    → read_frames (length fs + k) (write_all fs ++ s) ≡ before fs (read_frames k s)
read_frames-write_all k [] s h = rw zero-add
read_frames-write_all k ((topic, payload) ∷ fs) s h =
    simp (append_assoc, suc-add)
      (read_frames-frame (length fs + k) _ topic payload _
          (read_frame-write_frame topic payload _ h.0.0 h.0.1 h.0.2)
        ∙ ap (before ((topic, payload) ∷ [])) (read_frames-write_all k fs s h.1))

length-write_frame :
    (topic : Text) (payload : List ℕ)
    → length (write_frame topic payload) ≡ length (as_bytes topic) + length payload + 8
unfolding write_frame write_u32
length-write_frame topic payload =
    omega (arith, length-append (as_bytes topic) (write_u32 (length payload % 2 ^ 32) ++ payload))

length-write_all : (fs : List (Text × List ℕ)) → length fs ≤ length (write_all fs)
length-write_all [] = omega arith
length-write_all ((topic, payload) ∷ fs) = omega (
  arith,
  length-write_all fs,
  length-append (write_frame topic payload) (write_all fs),
  length-write_frame topic payload,
)

read_stream-failed :
    (fs : List (Text × List ℕ)) (s : List ℕ) (e : FrameError)
    → All IsSmall fs
    → read_frame s ≡ failed e
    → read_stream (write_all fs ++ s) ≡ (fs, e)
unfolding read_stream
read_stream-failed fs s e h f =
    let k = length (write_all fs ++ s) - length fs in
    let fuel : suc (length (write_all fs ++ s)) ≡ length fs + suc k =
      omega (arith, length-write_all fs, length-append (write_all fs) s) in
    ap (λ n. read_frames n (write_all fs ++ s)) fuel
    ∙ read_frames-write_all (suc k) fs s h
    ∙ ap (before fs) (read_frames-failed k s e f)
    ∙ ap (λ l. (l, e)) (append-nil fs)

read_frame-empty : read_frame [] ≡ failed read
unfolding read_frame read_field read_u32
read_frame-empty = refl

read_frame-oversized :
    (topic : Text) (payload rest : List ℕ)
    → max_frame < length (as_bytes topic)
    → length (as_bytes topic) < 2 ^ 32
    → read_frame (write_frame topic payload ++ rest) ≡ failed oversized_topic
unfolding read_frame write_frame
read_frame-oversized topic payload rest big w =
    simp append_assoc (read_field-oversized oversized_topic (as_bytes topic) _ _ big w)

-- A link that carries frames, one after another, whose topics are texts of characters and whose
-- fields take at most 16 MiB each, publishes exactly those frames in their order, and then reports
-- that it was closed.
pub read_stream-write_all :
    (fs : List (Text × List ℕ)) → All IsSmall fs → read_stream (write_all fs) ≡ (fs, read)
read_stream-write_all fs h =
    ap read_stream (sym (append-nil (write_all fs)))
    ∙ read_stream-failed fs [] read h read_frame-empty

-- Behind such frames, one whose topic takes more than 16 MiB and less than 4 GiB ends the link: what
-- came before it is published, and neither the frame nor what follows it is.
pub read_stream-oversized :
    (fs : List (Text × List ℕ)) (topic : Text) (payload rest : List ℕ)
    → All IsSmall fs
    → max_frame < length (as_bytes topic)
    → length (as_bytes topic) < 2 ^ 32
    → read_stream (write_all fs ++ (write_frame topic payload ++ rest)) ≡ (fs, oversized_topic)
read_stream-oversized fs topic payload rest h big w =
    read_stream-failed fs _ oversized_topic h (read_frame-oversized topic payload rest big w)
