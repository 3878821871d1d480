-- ===== src/Examples/FrameRuns.antt =====
-- Frames over a stream in memory, for crates/levshell-ipc/src/framing.rs.
use levshell.Prelude.{
  ℕ, zero, suc, ◌≡◌, refl, ap, sym, subst, inl, inr, Text, bytes, Bool, true, false, ◌==◌, some,
  List, [], ◌∷◌, ◌++◌, any_of, arith,
}
use levshell.Framing.{
  Reader, Writer, frame_delimiter, pop, ends_frame, read_frame, write_frame, send,
}
use levshell.Framing.Lines.{IsCut, IsReader, IsWriter}
use levshell.Framing.RoundTrip.{read_frames, write_frames, read_frames-write_frames}
use levshell.Framing.Errors.{IsRead, read_frame-IsRead}

abbrev taken : Bool → ℕ → Text → Text × Text → Text × Text
taken true b bs rest = (b ∷ [], bs)
taken false b bs rest = (b ∷ rest.0, rest.1)

-- The first line of the bytes, or as many bytes as there may be, and the rest.
abbrev cut_line : ℕ → Text → Text × Text
cut_line zero bs = ([], bs)
cut_line (suc n) [] = ([], [])
cut_line (suc n) (b ∷ bs) = let rest = cut_line n bs in taken (b == frame_delimiter) b bs rest

taken-IsCut :
    (n b : ℕ) (bs buf rest : Text)
    → (b == frame_delimiter) ≡ false
    → IsCut n bs buf rest
    → IsCut (suc n) (b ∷ bs) (b ∷ buf) rest
unfolding pop ends_frame any_of
taken-IsCut n b bs [] rest d cut = record {
  split = ap (λ l. b ∷ l) cut.split;
  bound = omega arith;
  single = refl;
  full = elim cut.full [
    | inl e ↦ inl (omega (arith, e))
    | inr (inl e) ↦ absurd (let bad : false ≡ true = e in cc)
    | inr (inr e) ↦ inr (inr e)
  ];
}
taken-IsCut n b bs (c ∷ buf) rest d cut = record {
  split = ap (λ l. b ∷ l) cut.split;
  bound = omega (arith, cut.bound);
  single = rw d cut.single;
  full = elim cut.full [
    | inl e ↦ inl (omega (arith, e))
    | inr (inl e) ↦ inr (inl e)
    | inr (inr e) ↦ inr (inr e)
  ];
}

cut_line-IsCut : (n : ℕ) (bs : Text) → IsCut n bs (cut_line n bs).0 (cut_line n bs).1
unfolding pop ends_frame any_of
cut_line-IsCut zero bs = record {
  split = refl;
  bound = omega arith;
  single = refl;
  full = inl refl;
}
cut_line-IsCut (suc n) [] = record {
  split = refl;
  bound = omega arith;
  single = refl;
  full = inr (inr refl);
}
cut_line-IsCut (suc n) (b ∷ bs) = go (b == frame_delimiter) refl (cut_line-IsCut n bs)
  where
    go :
        (d : Bool)
        → (b == frame_delimiter) ≡ d
        → IsCut n bs (cut_line n bs).0 (cut_line n bs).1
        → IsCut (suc n) (b ∷ bs) (taken d b bs (cut_line n bs)).0 (taken d b bs (cut_line n bs)).1
    go true d rest = record { split = refl; bound = omega arith; single = refl; full = inr (inl d) }
    go false d rest = taken-IsCut n b bs (cut_line n bs).0 (cut_line n bs).1 d rest

abbrev memory_reader : Reader Text
memory_reader = record { read_until = λ n bs. some (cut_line n bs) }

abbrev memory_writer : Writer Text
memory_writer = record { write_all = λ bs w. some (w ++ bs); flush = λ w. some w }

memory_reader-IsReader : IsReader memory_reader (λ bs. bs)
memory_reader-IsReader = record {
  cuts = λ limit s s' buf h.
      let same : cut_line limit s ≡ (buf, s') = cc in
      subst (λ x. IsCut limit s x.0 x.1) same (cut_line-IsCut limit s);
}

memory_writer-IsWriter : IsWriter memory_writer (λ w. w)
memory_writer-IsWriter = record {
  writes = λ bs w w' h. (let same : w ++ bs ≡ w' = cc in sym same);
  flushes = λ w w' h. (let same : w ≡ w' = cc in sym same);
}

abbrev messages : List Text
messages = bytes "{}" ∷ bytes "" ∷ bytes "{a}" ∷ []

abbrev wire : Text
wire = bytes "{}" ++ (10 ∷ (bytes "" ++ (10 ∷ (bytes "{a}" ++ (10 ∷ [])))))

wire_test : write_frames memory_writer [] messages ≡ some wire
unfolding write_frames write_frame send any_of
wire_test = refl

read_frames-write_frames_example :
    (s' : Text) × (read_frames memory_reader 3 (wire ++ bytes "{b") ≡ some (messages, s'))
    × (s' ≡ bytes "{b")
read_frames-write_frames_example =
    read_frames-write_frames memory_reader (λ bs. bs) memory_reader-IsReader memory_writer (λ w. w)
      memory_writer-IsWriter [] wire (wire ++ bytes "{b") messages wire (bytes "{b")
      (λ limit t. (cut_line limit t, refl)) wire_test refl refl

read_frame-IsRead_example : IsRead (λ bs. bs) (bytes "{b") (read_frame memory_reader (bytes "{b"))
read_frame-IsRead_example =
    read_frame-IsRead memory_reader (λ bs. bs) (bytes "{b") memory_reader-IsReader
      (λ limit t. (cut_line limit t, refl))
