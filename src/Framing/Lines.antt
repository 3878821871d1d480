-- ===== src/Framing/Lines.antt =====
-- What a line is to the reader of crates/levshell-ipc/src/framing.rs.
use levshell.Prelude.{
  ℕ, ◌-◌, ◌≤◌, ◌<◌, ◌≡◌, refl, ◌∙◌, sym, subst, ◌⊎◌, inl, inr, Text, true, false, ==_iff, some, [],
  ◌∷◌, ◌++◌, length, any_of, arith,
}
use levshell.Framing.{Reader, Writer, ends_frame, pop, has_delimiter, frame_delimiter}

-- A buffer taken off the front of the bytes: no longer than the limit, with no delimiter before its
-- end, and cut short only by a delimiter or by the end of the stream.
pub record IsCut (limit : ℕ) (bytes buf rest : Text) : Type 0 where
  pub split : bytes ≡ buf ++ rest
  pub bound : length buf ≤ limit
  pub single : has_delimiter (pop buf) ≡ false
  pub full : (length buf ≡ limit) ⊎ ((ends_frame buf ≡ true) ⊎ (rest ≡ []))

-- What tokio promises of the reader and of the writer.
pub record IsReader {S : Type 0} (reader : Reader S) (content : S → Text) : Type 0 where
  pub cuts :
      (limit : ℕ) (s s' : S) (buf : Text)
      → reader.read_until limit s ≡ some (buf, s')
      → IsCut limit (content s) buf (content s')

pub record IsWriter {W : Type 0} (writer : Writer W) (written : W → Text) : Type 0 where
  pub writes :
      (bytes : Text) (w w' : W)
      → writer.write_all bytes w ≡ some w'
      → written w' ≡ written w ++ bytes
  pub flushes : (w w' : W) → writer.flush w ≡ some w' → written w' ≡ written w

cons-head : (x y : ℕ) (xs ys : Text) → x ∷ xs ≡ y ∷ ys → x ≡ y
cons-head x y xs ys h = cc

pub cons-tail : (x y : ℕ) (xs ys : Text) → x ∷ xs ≡ y ∷ ys → xs ≡ ys
cons-tail x y xs ys h = cc

no_nil : (xs ys : Text) (y : ℕ) → xs ++ (y ∷ ys) ≡ [] → ⊥
no_nil [] ys y h = cc
no_nil (x ∷ xs) ys y h = cc

tail_clean : (x : ℕ) (xs : Text) → has_delimiter (x ∷ xs) ≡ false → has_delimiter xs ≡ false
unfolding any_of
tail_clean x xs h = ground arith

head_clean : (x : ℕ) (xs : Text) → has_delimiter (x ∷ xs) ≡ false → x ≡ frame_delimiter → ⊥
unfolding any_of
head_clean x xs h e = ground (arith, e)

-- A cut of one byte more, at both ends.
IsCut-tail :
    (limit : ℕ) (b c : ℕ) (bytes bs rest : Text)
    → IsCut limit (b ∷ bytes) (b ∷ c ∷ bs) rest
    → IsCut (limit - 1) bytes (c ∷ bs) rest
unfolding pop ends_frame
IsCut-tail limit b c bytes bs rest cut = record {
  split = cons-tail b b bytes (c ∷ (bs ++ rest)) cut.split;
  bound = omega (arith, cut.bound);
  single = tail_clean b (pop (c ∷ bs)) cut.single;
  full = elim cut.full [
    | inl e ↦ inl (omega (arith, e))
    | inr (inl e) ↦ inr (inl e)
    | inr (inr e) ↦ inr (inr e)
  ];
}

-- The reader cuts exactly the first line, if the limit is longer than the line.
pub IsCut-line :
    (limit : ℕ) (line rest buf rest' : Text)
    → has_delimiter line ≡ false
    → length line < limit
    → IsCut limit (line ++ (frame_delimiter ∷ rest)) buf rest'
    → (buf ≡ line ++ (frame_delimiter ∷ [])) × (rest' ≡ rest)
unfolding any_of ends_frame pop
IsCut-line limit line rest [] rest' clean short cut = absurd (elim cut.full [
  | inl e ↦ omega (arith, short, e)
  | inr (inl e) ↦ (let bad : false ≡ true = e in cc)
  | inr (inr e) ↦ no_nil line rest frame_delimiter (cut.split ∙ e)
])
IsCut-line limit [] rest (b ∷ []) rest' clean short cut =
    let split : frame_delimiter ∷ rest ≡ b ∷ rest' = cut.split in
    let head : frame_delimiter ≡ b = cons-head frame_delimiter b rest rest' split in
    (rw head refl, sym (cons-tail frame_delimiter b rest rest' split))
IsCut-line limit [] rest (b ∷ c ∷ bs) rest' clean short cut = absurd (
    head_clean b (pop (c ∷ bs)) cut.single
      (sym (cons-head frame_delimiter b rest (c ∷ (bs ++ rest')) cut.split)))
IsCut-line limit (x ∷ line) rest (b ∷ []) rest' clean short cut =
    let tail : line ++ (frame_delimiter ∷ rest) ≡ rest' = cons-tail x b _ rest' cut.split in
    absurd (elim cut.full [
      | inl e ↦ omega (arith, short, e)
      | inr (inl e) ↦
          head_clean x line clean (cons-head x b _ rest' cut.split ∙ (==_iff b frame_delimiter).0 e)
      | inr (inr e) ↦ no_nil line rest frame_delimiter (tail ∙ e)
    ])
IsCut-line limit (x ∷ line) rest (b ∷ c ∷ bs) rest' clean short cut =
    let head : x ≡ b = cons-head x b _ (c ∷ (bs ++ rest')) cut.split in
    let moved : IsCut limit (b ∷ (line ++ (frame_delimiter ∷ rest))) (b ∷ c ∷ bs) rest' =
      subst (λ y. IsCut limit (y ∷ (line ++ (frame_delimiter ∷ rest))) (b ∷ c ∷ bs) rest') head
        cut in
    let (same, left) =
      IsCut-line (limit - 1) line rest (c ∷ bs) rest' (tail_clean x line clean)
        (omega (arith, short))
        (IsCut-tail limit b c (line ++ (frame_delimiter ∷ rest)) bs rest' moved) in
    (rw (head, same) refl, left)
