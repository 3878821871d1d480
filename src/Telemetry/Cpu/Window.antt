-- ===== src/Telemetry/Cpu/Window.antt =====
-- The window of samples that crates/levshell-modules/src/telemetry/cpu.rs keeps.
use levshell.Prelude.{
  ℕ, zero, suc, ◌+◌, ◌-◌, ◌≤◌, ◌<◌, ◌≡◌, refl, ◌∙◌, ap, sym, ◌==◌, ==_iff, false, Option, some,
  List, [], ◌∷◌, ◌++◌, length, length-append, arith, Bool-cases, inl, inr,
}
use levshell.Telemetry.Cpu.{
  Percents, CpuSample, CpuModule, history_len, pop_front, push_sample, usage_percent, publish,
  after_sample, tick,
}

short_window :
    (n kept : ℕ) → kept ≡ n - (n - history_len) → (kept == history_len) ≡ false → n < history_len
short_window n kept h e = ground arith

module _ {A : Type 0} where
  abbrev pub drop : ℕ → List A → List A
  drop zero xs = xs
  drop (suc n) [] = []
  drop (suc n) (x ∷ xs) = drop n xs

  -- The newest samples, sixty at most.
  abbrev pub newest : List A → List A
  newest xs = drop (length xs - history_len) xs

  drop-append : (n : ℕ) (xs ys : List A) → n ≤ length xs → drop n (xs ++ ys) ≡ drop n xs ++ ys
  drop-append zero xs ys h = refl
  drop-append (suc n) [] ys h = absurd (omega (arith, h))
  drop-append (suc n) (x ∷ xs) ys h = drop-append n xs ys (omega (arith, h))

  length-drop : (n : ℕ) (xs : List A) → length (drop n xs) ≡ length xs - n
  length-drop zero xs = omega arith
  length-drop (suc n) [] = omega arith
  length-drop (suc n) (x ∷ xs) = omega (arith, length-drop n xs)

  pop_front-drop : (n : ℕ) (xs : List A) → pop_front (drop n xs) ≡ drop (suc n) xs
  unfolding pop_front
  pop_front-drop zero [] = refl
  pop_front-drop zero (x ∷ xs) = refl
  pop_front-drop (suc n) [] = refl
  pop_front-drop (suc n) (x ∷ xs) = pop_front-drop n xs

  -- One sample more.
  push_sample-newest : (xs : List A) (x : A) → push_sample (newest xs) x ≡ newest (xs ++ (x ∷ []))
  unfolding push_sample
  push_sample-newest xs x =
      let grown : length (xs ++ (x ∷ [])) ≡ length xs + 1 = length-append xs (x ∷ []) in
      let kept : length (newest xs) ≡ length xs - (length xs - history_len) =
        length-drop (length xs - history_len) xs in
      elim (Bool-cases (length (newest xs) == history_len)) [
        | inl full ↦
            let n = length xs - history_len in
            let sixty = (==_iff (length (newest xs)) history_len).0 full in
            let next : length (xs ++ (x ∷ [])) - history_len ≡ suc n =
              omega (arith, grown, kept, sixty) in
            rw full (
              ap (λ h. h ++ (x ∷ [])) (pop_front-drop n xs)
              ∙ sym (drop-append (suc n) xs (x ∷ []) (omega (arith, kept, sixty)))
              ∙ ap (λ k. drop k (xs ++ (x ∷ []))) (sym next))
        | inr room ↦
            let few : length xs < history_len =
              short_window (length xs) (length (newest xs)) kept room in
            let none_now : length xs - history_len ≡ 0 = omega (arith, few) in
            let none_next : length (xs ++ (x ∷ [])) - history_len ≡ 0 = omega (arith, few, grown) in
            rw room (
              ap (λ k. drop k xs ++ (x ∷ [])) none_now
              ∙ ap (λ k. drop k (xs ++ (x ∷ []))) (sym none_next))
      ]

  append_assoc : (xs ys zs : List A) → (xs ++ ys) ++ zs ≡ xs ++ (ys ++ zs)
  append_assoc [] ys zs = refl
  append_assoc (x ∷ xs) ys zs = ap (λ l. x ∷ l) (append_assoc xs ys zs)

  append_nil : (xs : List A) → xs ++ [] ≡ xs
  append_nil [] = refl
  append_nil (x ∷ xs) = ap (λ l. x ∷ l) (append_nil xs)

module _ {N : Type 0} (percents : Percents N) where
  -- The percentages between each sample and the next.
  abbrev pub usages : CpuSample → List (CpuSample × Option N) → List N
  usages prev [] = []
  usages prev ((sample, load) ∷ calls) = usage_percent percents sample prev ∷ usages sample calls

  unfoldable pub run : CpuModule N → List (CpuSample × Option N) → CpuModule N
  run m [] = m
  run m ((sample, load) ∷ calls) = run (tick percents m sample load).0 calls

  tick-last :
      (m : CpuModule N) (sample : CpuSample) (load : Option N)
      → (tick percents m sample load).0.last_sample ≡ some sample
  unfolding tick
  tick-last m sample load = refl

  tick-history :
      (m : CpuModule N) (prev sample : CpuSample) (load : Option N)
      → m.last_sample ≡ some prev
      → (tick percents m sample load).0.history
        ≡ push_sample m.history (usage_percent percents sample prev)
  unfolding tick publish
  tick-history m prev sample load h = ap (λ o. (after_sample percents m o sample load).0.history) h

  -- After a first sample the module keeps, over any run of ticks, the percentages between each sample
  -- and the next, the oldest first, and of those the newest sixty at most.
  pub run-window :
      (m : CpuModule N) (prev : CpuSample) (calls : List (CpuSample × Option N)) (past : List N)
      → m.last_sample ≡ some prev
      → m.history ≡ newest past
      → (run m calls).history ≡ newest (past ++ usages prev calls)
  unfolding run
  run-window m prev [] past last h = h ∙ ap newest (sym (append_nil past))
  run-window m prev ((sample, load) ∷ calls) past last h =
      let usage = usage_percent percents sample prev in
      run-window (tick percents m sample load).0 sample calls (past ++ (usage ∷ []))
        (tick-last m sample load)
        (tick-history m prev sample load last
          ∙ ap (λ w. push_sample w usage) h
          ∙ push_sample-newest past usage)
      ∙ ap newest (append_assoc past (usage ∷ []) (usages sample calls))
