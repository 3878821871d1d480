-- ===== src/Framing/RoundTrip.antt =====
-- Frames written by crates/levshell-ipc/src/framing.rs and read back.
use levshell.Prelude.{
  ℕ, zero, suc, All, ◌+◌, ◌≤◌, ◌≡◌, refl, ◌∙◌, ap, sym, subst, inl, inr, Text, true, false, ◌==◌,
  ltb, Option, none, some, List, [], ◌∷◌, ◌++◌, length, length-append, arith, Bool-cases,
  Option-cases,
}
use levshell.Framing.{
  Reader, Writer, frame, refused, Written, sent, unsent, IpcError, frame_too_large, ends_frame, pop,
  has_delimiter, frame_delimiter, max_frame_size, classify, read_frame, send, write_frame,
}
use levshell.Framing.Lines.{IsCut, IsReader, IsWriter, IsCut-line, cons-tail}

ends_frame-line : (line : Text) → ends_frame (line ++ (frame_delimiter ∷ [])) ≡ true
unfolding ends_frame
ends_frame-line [] = refl
ends_frame-line (x ∷ []) = refl
ends_frame-line (x ∷ y ∷ line) = ends_frame-line (y ∷ line)

pop-line : (line : Text) → pop (line ++ (frame_delimiter ∷ [])) ≡ line
unfolding pop
pop-line [] = refl
pop-line (x ∷ []) = refl
pop-line (x ∷ y ∷ line) = ap (λ l. x ∷ l) (pop-line (y ∷ line))

classify-line :
    {S : Type 0} (line : Text) (s : S) → classify (line ++ (frame_delimiter ∷ [])) s ≡ frame line s
unfolding classify
classify-line line s =
    let counted : length (line ++ (frame_delimiter ∷ [])) == 0 ≡ false =
      ground (arith, length-append line (frame_delimiter ∷ [])) in
    rw (counted, ends_frame-line line, pop-line line) refl

module _ {S : Type 0} (reader : Reader S) (content : S → Text)
    (is_reader : IsReader reader content) where
  read_frame-line :
      (s : S) (line rest : Text)
      → ((limit : ℕ) (t : S) → (x : Text × S) × (reader.read_until limit t ≡ some x))
      → content s ≡ line ++ (frame_delimiter ∷ rest)
      → has_delimiter line ≡ false
      → length line ≤ max_frame_size
      → (s' : S) × (read_frame reader s ≡ frame line s') × (content s' ≡ rest)
  unfolding read_frame
  read_frame-line s line rest reads h clean short =
      let ((buf, s'), found) = reads (max_frame_size + 1) s in
      let cut = is_reader.cuts (max_frame_size + 1) s s' buf found in
      let (same, left) =
        IsCut-line (max_frame_size + 1) line rest buf (content s') clean (omega (arith, short))
          (subst (λ c. IsCut (max_frame_size + 1) c buf (content s')) h cut) in
      (s', rw (found, read_frame) (ap (λ b. classify b s') same ∙ classify-line line s'), left)

module _ {S : Type 0} (reader : Reader S) where
  -- So many frames in turn, up to the first error.
  unfoldable pub read_frames : ℕ → S → Option (List Text × S)
  read_frames zero s = some ([], s)
  read_frames (suc n) s = elim (read_frame reader s) [
    | refused e ↦ none
    | frame line s1 ↦ elim (read_frames n s1) [
      | none ↦ none
      | some (lines, s2) ↦ some (line ∷ lines, s2)
    ]
  ]

-- The frames in turn, up to the first error.
unfoldable pub write_frames : {W : Type 0} → Writer W → W → List Text → Option W
write_frames writer w [] = some w
write_frames writer w (line ∷ lines) = elim (write_frame writer w line) [
  | unsent e ↦ none
  | sent w1 ↦ write_frames writer w1 lines
]

-- The bytes of the frames, before others.
abbrev pub framed : List Text → Text → Text
framed [] rest = rest
framed (line ∷ lines) rest = line ++ (frame_delimiter ∷ framed lines rest)

pub append_assoc : (xs ys zs : Text) → (xs ++ ys) ++ zs ≡ xs ++ (ys ++ zs)
append_assoc [] ys zs = refl
append_assoc (x ∷ xs) ys zs = ap (λ l. x ∷ l) (append_assoc xs ys zs)

pub append_nil : (xs : Text) → xs ++ [] ≡ xs
append_nil [] = refl
append_nil (x ∷ xs) = ap (λ l. x ∷ l) (append_nil xs)

append_cancel : (xs ys zs : Text) → xs ++ ys ≡ xs ++ zs → ys ≡ zs
append_cancel [] ys zs h = h
append_cancel (x ∷ xs) ys zs h = append_cancel xs ys zs (cons-tail x x (xs ++ ys) (xs ++ zs) h)

framed-append : (lines : List Text) (rest : Text) → framed lines [] ++ rest ≡ framed lines rest
framed-append [] rest = refl
framed-append (line ∷ lines) rest =
    append_assoc line (frame_delimiter ∷ framed lines []) rest
    ∙ ap (λ b. line ++ (frame_delimiter ∷ b)) (framed-append lines rest)

module _ {W : Type 0} (writer : Writer W) (written : W → Text)
    (is_writer : IsWriter writer written) where
  send-written :
      (w w' : W) (line : Text)
      → send writer w line ≡ sent w'
      → written w' ≡ (written w ++ line) ++ (frame_delimiter ∷ [])
  unfolding send
  send-written w w' line h = elim (Option-cases (writer.write_all line w)) [
    | inl e ↦ absurd (let bad : unsent IpcError.io ≡ sent w' = rw (e, send) at h in cc)
    | inr (w1, e1) ↦ elim (Option-cases (writer.write_all (frame_delimiter ∷ []) w1)) [
      | inl e ↦ absurd (let bad : unsent IpcError.io ≡ sent w' = rw (e1, e, send) at h in cc)
      | inr (w2, e2) ↦ elim (Option-cases (writer.flush w2)) [
        | inl e ↦ absurd (let bad : unsent IpcError.io ≡ sent w' = rw (e1, e2, e, send) at h in cc)
        | inr (w3, e3) ↦
            let it : sent w3 ≡ sent w' = rw (e1, e2, e3, send) at h in
            let same : w3 ≡ w' = cc in
            ap written (sym same)
            ∙ is_writer.flushes w2 w3 e3
            ∙ is_writer.writes (frame_delimiter ∷ []) w1 w2 e2
            ∙ ap (λ b. b ++ (frame_delimiter ∷ [])) (is_writer.writes line w w1 e1)
      ]
    ]
  ]

  write_frame-sent :
      (w w' : W) (line : Text)
      → write_frame writer w line ≡ sent w'
      → (has_delimiter line ≡ false)
        × (length line ≤ max_frame_size)
        × (written w' ≡ (written w ++ line) ++ (frame_delimiter ∷ []))
  unfolding write_frame
  write_frame-sent w w' line h = elim (Bool-cases (ltb max_frame_size (length line))) [
    | inl long ↦ absurd (
        let bad : unsent (frame_too_large (length line) max_frame_size) ≡ sent w' =
          rw (long, write_frame) at h in
        cc)
    | inr short ↦ elim (Bool-cases (has_delimiter line)) [
      | inl dirty ↦
          absurd
            (let bad : unsent IpcError.codec ≡ sent w' = rw (short, dirty, write_frame) at h in cc)
      | inr clean ↦ (
        clean,
        ground (arith, short),
        send-written w w' line (rw (short, clean, write_frame) at h),
      )
    ]
  ]

  -- A frame that may be sent.
  abbrev IsSendable : Text → Type 0
  IsSendable line = (has_delimiter line ≡ false) × (length line ≤ max_frame_size)

  write_frames-cons :
      (w w' : W) (line : Text) (lines : List Text)
      → write_frames writer w (line ∷ lines) ≡ some w'
      → (w1 : W) × (write_frame writer w line ≡ sent w1) × (write_frames writer w1 lines ≡ some w')
  unfolding write_frames
  write_frames-cons w w' line lines h = go (write_frame writer w line) refl
    where
      go :
          (x : Written W)
          → write_frame writer w line ≡ x
          → (w1 : W) × (write_frame writer w line ≡ sent w1)
            × (write_frames writer w1 lines ≡ some w')
      go (sent w1) e = (w1, e, rw (e, write_frames) at h)
      go (unsent err) e = absurd (let bad : none ≡ some w' = rw (e, write_frames) at h in cc)

  write_frames-written :
      (w w' : W) (lines : List Text)
      → write_frames writer w lines ≡ some w'
      → All IsSendable lines × (written w' ≡ written w ++ framed lines [])
  unfolding write_frames
  write_frames-written w w' [] h =
      let same : w ≡ w' = cc in (tt, ap written (sym same) ∙ sym (append_nil (written w)))
  write_frames-written w w' (line ∷ lines) h =
      let (w1, first, rest) = write_frames-cons w w' line lines h in
      let (clean, short, at_w1) = write_frame-sent w w1 line first in
      let (all, at_w') = write_frames-written w1 w' lines rest in
      (
        ((clean, short), all),
        at_w'
            ∙ ap (λ b. b ++ framed lines []) at_w1
            ∙ append_assoc (written w ++ line) (frame_delimiter ∷ []) (framed lines [])
            ∙ append_assoc (written w) line (frame_delimiter ∷ framed lines []),
      )

module _ {S W : Type 0} (reader : Reader S) (content : S → Text)
    (is_reader : IsReader reader content) (writer : Writer W) (written : W → Text)
    (is_writer : IsWriter writer written) where
  read_frames-framed :
      (s : S) (lines : List Text) (rest : Text)
      → ((limit : ℕ) (t : S) → (x : Text × S) × (reader.read_until limit t ≡ some x))
      → All (λ line. (has_delimiter line ≡ false) × (length line ≤ max_frame_size)) lines
      → content s ≡ framed lines rest
      → (s' : S) × (read_frames reader (length lines) s ≡ some (lines, s')) × (content s' ≡ rest)
  unfolding read_frames
  read_frames-framed s [] rest reads all h = (s, refl, h)
  read_frames-framed s (line ∷ lines) rest reads ((clean, short), all) h =
      let (s1, first, left) =
        read_frame-line reader content is_reader s line (framed lines rest) reads h clean short in
      let (s2, later, left2) = read_frames-framed s1 lines rest reads all left in
      (s2, rw (first, later, read_frames) refl, left2)

  -- If the reader and the writer keep tokio's promises and the reader does not fail: when frames have
  -- been written without an error, and what they added to the stream is what the reader has next,
  -- then as many reads give the same frames, and leave what follows them.
  pub read_frames-write_frames :
      (w w' : W) (s : S) (lines : List Text) (bytes rest : Text)
      → ((limit : ℕ) (t : S) → (x : Text × S) × (reader.read_until limit t ≡ some x))
      → write_frames writer w lines ≡ some w'
      → written w' ≡ written w ++ bytes
      → content s ≡ bytes ++ rest
      → (s' : S) × (read_frames reader (length lines) s ≡ some (lines, s')) × (content s' ≡ rest)
  read_frames-write_frames w w' s lines bytes rest reads wrote added next =
      let (all, at_w') = write_frames-written writer written is_writer w w' lines wrote in
      let same : bytes ≡ framed lines [] =
        append_cancel (written w) bytes (framed lines []) (sym added ∙ at_w') in
      read_frames-framed s lines rest reads all
        (next ∙ ap (λ b. b ++ rest) same ∙ framed-append lines rest)
