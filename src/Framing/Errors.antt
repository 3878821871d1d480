-- ===== src/Framing/Errors.antt =====
-- Every result of `read_frame` of crates/levshell-ipc/src/framing.rs.
use levshell.Prelude.{
  ℕ, ◌+◌, ◌≤◌, ◌≡◌, refl, ◌∙◌, ap, sym, subst, inl, inr, Text, true, false, ◌==◌, ==_iff, ltb,
  ltb→lt, some, [], ◌∷◌, ◌++◌, length, length-append, any_of, arith, Bool-cases,
}
use levshell.Framing.{
  Reader, Read, frame, refused, connection_closed, frame_too_large, ends_frame, pop, has_delimiter,
  frame_delimiter, max_frame_size, classify, read_frame,
}
use levshell.Framing.Lines.{IsCut, IsReader}
use levshell.Framing.RoundTrip.{append_assoc, append_nil}

ends_frame-pop : (buf : Text) → ends_frame buf ≡ true → buf ≡ pop buf ++ (frame_delimiter ∷ [])
unfolding ends_frame pop
ends_frame-pop [] h = cc
ends_frame-pop (b ∷ []) h = ap (λ x. x ∷ []) ((==_iff b frame_delimiter).0 h)
ends_frame-pop (b ∷ c ∷ bs) h = ap (λ l. b ∷ l) (ends_frame-pop (c ∷ bs) h)

ends_frame_nil : ends_frame [] ≡ false
unfolding ends_frame
ends_frame_nil = refl

counted : (b : ℕ) (bs : Text) → (length (b ∷ bs) == 0) ≡ false
counted b bs = ground arith

pop_clean :
    (buf : Text)
    → has_delimiter (pop buf) ≡ false
    → ends_frame buf ≡ false
    → has_delimiter buf ≡ false
unfolding ends_frame pop any_of
pop_clean [] h e = refl
pop_clean (b ∷ []) h e = rw e refl
pop_clean (b ∷ c ∷ bs) h e = elim (Bool-cases (b == frame_delimiter)) [
  | inl d ↦ absurd (let bad : true ≡ false = rw d at h in cc)
  | inr d ↦ rw d (pop_clean (c ∷ bs) (rw d at h) e)
]

module _ {S : Type 0} (content : S → Text) (s : S) where
  -- What each result says of the bytes to come. Io cannot be, and the codec has no part in it.
  abbrev pub IsRead : Read S → Type 0
  IsRead (frame line s') =
      (content s ≡ line ++ (frame_delimiter ∷ content s'))
      × (has_delimiter line ≡ false)
      × (length line ≤ max_frame_size)
  IsRead (refused connection_closed) =
      (has_delimiter (content s) ≡ false) × (length (content s) ≤ max_frame_size)
  IsRead (refused (frame_too_large size max)) =
      (size ≡ max_frame_size + 1)
      × (max ≡ max_frame_size)
      × ((front : Text) × (rest : Text) × (content s ≡ front ++ rest)
          × (length front ≡ max_frame_size + 1)
          × (has_delimiter front ≡ false))
  IsRead (refused _) = ⊥

  closed-IsRead :
      (buf : Text) (s' : S)
      → IsCut (max_frame_size + 1) (content s) buf (content s')
      → ends_frame buf ≡ false
      → length buf ≤ max_frame_size
      → IsRead (refused connection_closed)
  closed-IsRead buf s' cut e short =
      let empty : content s' ≡ [] = elim cut.full [
        | inl h ↦ absurd (omega (arith, h, short))
        | inr (inl h) ↦ absurd (let bad : true ≡ false = sym h ∙ e in cc)
        | inr (inr h) ↦ h
      ] in
      let all : content s ≡ buf = cut.split ∙ ap (λ r. buf ++ r) empty ∙ append_nil buf in
      subst (λ c. (has_delimiter c ≡ false) × (length c ≤ max_frame_size)) (sym all)
        (pop_clean buf cut.single e, short)

  classify-IsRead :
      (buf : Text) (s' : S)
      → IsCut (max_frame_size + 1) (content s) buf (content s')
      → IsRead (classify buf s')
  unfolding classify
  classify-IsRead [] s' cut = closed-IsRead [] s' cut ends_frame_nil (omega arith)
  classify-IsRead (b ∷ bs) s' cut = elim (Bool-cases (ends_frame (b ∷ bs))) [
    | inl e ↦
        rw (counted b bs, e)
          (
            cut.split
                ∙ ap (λ l. l ++ content s') (ends_frame-pop (b ∷ bs) e)
                ∙ append_assoc (pop (b ∷ bs)) (frame_delimiter ∷ []) (content s'),
            cut.single,
            omega (
              arith,
              cut.bound,
              ap length (ends_frame-pop (b ∷ bs) e),
              length-append (pop (b ∷ bs)) (frame_delimiter ∷ []),
            ),
          )
    | inr e ↦ elim (Bool-cases (ltb max_frame_size (length (b ∷ bs)))) [
      | inl long ↦
          let full : length (b ∷ bs) ≡ max_frame_size + 1 =
            omega (arith, cut.bound, ltb→lt max_frame_size (length (b ∷ bs)) long) in
          rw (counted b bs, e, long)
            (full, refl, (b ∷ bs, content s', cut.split, full, pop_clean (b ∷ bs) cut.single e))
      | inr short ↦
          rw (counted b bs, e, short) (closed-IsRead (b ∷ bs) s' cut e (ground (arith, short)))
    ]
  ]

-- If the reader keeps tokio's promise and does not fail, read_frame gives the bytes up to the first
-- delimiter where there are at most 16 MiB of them, and leaves what follows; it says that the frame is
-- too large just when there is no delimiter in one byte more than that, and that the connection is
-- closed just when the stream ends before either.
pub read_frame-IsRead :
    {S : Type 0} (reader : Reader S) (content : S → Text) (s : S)
    → IsReader reader content
    → ((limit : ℕ) (t : S) → (x : Text × S) × (reader.read_until limit t ≡ some x))
    → IsRead content s (read_frame reader s)
unfolding read_frame
read_frame-IsRead reader content s is_reader reads =
    let ((buf, s'), found) = reads (max_frame_size + 1) s in
    rw (found, read_frame)
      (classify-IsRead content s buf s' (is_reader.cuts (max_frame_size + 1) s s' buf found))
