-- ===== src/Interruption/Away.antt =====
-- What crates/levshell-modules/src/interruption/mod.rs knows of the past, and what it reports.
use levshell.Prelude.{
  ℕ, Assoc, ◌≤◌, ◌-◌, ◌≡◌, refl, ◌∙◌, ap, Text, text_eq, text_eq_iff, lookup, lookup-insert, true,
  false, not, ◌&&◌, Option, none, some, List, [], ◌∷◌, if◌then◌else◌, ltb, arith, Bool-cases, inl,
  inr, ◌⊎◌, ◌≢◌, ◌<◌, ◌*◌, ◌+◌, ltb→lt,
}
use levshell.Rules.{ℤ}
use levshell.Interruption.{
  InterruptionState, InterruptionTracker, new, from_secs, is_current, mark_left, report,
  apply_focus,
}

-- The workspaces focused and when, the newest first.
abbrev pub History : Type 0
History = List (Text × ℕ)

abbrev pub focused : History → Option Text
focused [] = none
focused ((ws, now) ∷ past) = some ws

-- When the workspace was last left: the time of the newest change from it to another.
abbrev pub left_at : Text → History → Option ℕ
left_at ws [] = none
left_at ws ((to, now) ∷ past) =
    if is_current (focused past) ws && not (text_eq to ws) then some now else left_at ws past

-- The tracker after the history; the time on the wall clock changes nothing in it.
abbrev pub tracked : ℕ → (ℕ → ℤ) → History → InterruptionTracker
tracked secs clock [] = new secs
tracked secs clock ((ws, now) ∷ past) = (apply_focus (tracked secs clock past) ws now (clock now)).0

record IsTracked (secs : ℕ) (past : History) (t : InterruptionTracker) : Type 0 where
  secs_eq : t.min_away_secs ≡ secs
  current_eq : t.current_workspace ≡ focused past
  left_eq : (ws : Text) → lookup ws t.last_left_at ≡ left_at ws past

mark_left_lem :
    (current : Option Text) (to : Text) (now : ℕ) (left : Assoc ℕ) (ws : Text)
    → is_current current to ≡ false
    → lookup ws (mark_left current now left)
      ≡ (if is_current current ws && not (text_eq to ws) then some now else lookup ws left)
mark_left_lem none to now left ws h = refl
mark_left_lem (some prev) to now left ws h = ground (
  arith,
  lookup-insert prev ws now left,
  text_eq_iff prev ws,
  text_eq_iff to ws,
  text_eq_iff prev to,
)

stays :
    (current : Option Text) (to ws : Text)
    → is_current current to ≡ true
    → is_current current ws && not (text_eq to ws) ≡ false
stays none to ws h = cc
stays (some prev) to ws h =
    ground (arith, text_eq_iff prev ws, text_eq_iff to ws, text_eq_iff prev to)

stays-some : (current : Option Text) (to : Text) → is_current current to ≡ true → current ≡ some to
stays-some none to h = cc
stays-some (some prev) to h = ap some ((text_eq_iff prev to).0 h)

IsTracked-apply_focus :
    (secs : ℕ) (past : History) (t : InterruptionTracker) (to : Text) (now : ℕ) (ms : ℤ)
    → IsTracked secs past t
    → IsTracked secs ((to, now) ∷ past) (apply_focus t to now ms).0
unfolding apply_focus
IsTracked-apply_focus secs past t to now ms h =
    elim (Bool-cases (is_current t.current_workspace to)) [
      | inl same ↦ rw same (record {
        secs_eq = h.secs_eq;
        current_eq = stays-some t.current_workspace to same;
        left_eq =
            λ ws. ground (arith, h.left_eq ws, h.current_eq, stays t.current_workspace to ws same);
      })
      | inr moved ↦ rw moved (record {
        secs_eq = h.secs_eq;
        current_eq = refl;
        left_eq = λ ws. ground (
          arith,
          h.left_eq ws,
          h.current_eq,
          mark_left_lem t.current_workspace to now t.last_left_at ws moved,
        );
      })
    ]

tracked-IsTracked :
    (secs : ℕ) (clock : ℕ → ℤ) (past : History) → IsTracked secs past (tracked secs clock past)
unfolding new lookup
tracked-IsTracked secs clock [] = record { secs_eq = refl; current_eq = refl; left_eq = λ ws. refl }
tracked-IsTracked secs clock ((to, now) ∷ past) =
    IsTracked-apply_focus secs past (tracked secs clock past) to now (clock now)
      (tracked-IsTracked secs clock past)

IsTracked-report :
    (secs : ℕ) (past : History) (t : InterruptionTracker) (to : Text) (now : ℕ) (ms : ℤ)
    → IsTracked secs past t
    → (apply_focus t to now ms).1
      ≡ (if is_current (focused past) to then none else report secs to now ms (left_at to past))
unfolding apply_focus
IsTracked-report secs past t to now ms h = elim (Bool-cases (is_current t.current_workspace to)) [
  | inl same ↦
      let focus : is_current (focused past) to ≡ true = rw h.current_eq at same in
      rw (same, focus) refl
  | inr moved ↦
      let focus : is_current (focused past) to ≡ false = rw h.current_eq at moved in
      let left : lookup to (mark_left t.current_workspace now t.last_left_at) ≡ left_at to past =
        mark_left_lem t.current_workspace to now t.last_left_at to moved
        ∙ rw moved (h.left_eq to) in
      rw (moved, focus, left, h.secs_eq) refl
]

-- What the answer to a change to `to` says of the past, in nanoseconds. There is none while `to`
-- has the focus, when it was never left, or when it was left less than the configured time ago;
-- otherwise the report has the whole seconds since `to` was last left.
abbrev pub Reported : ℕ → History → Text → ℕ → ℤ → Option InterruptionState → Type 0
Reported secs past to now ms none =
    (focused past ≡ some to)
    ⊎ ((left_at to past ≡ none)
        ⊎ ((t : ℕ) × (left_at to past ≡ some t) × (now - t < secs * 1000000000)))
Reported secs past to now ms (some r) =
    (t : ℕ) × (focused past ≢ some to)
    × (left_at to past ≡ some t)
    × (secs * 1000000000 ≤ now - t)
    × (r.away_seconds * 1000000000 ≤ now - t)
    × (now - t < (r.away_seconds + 1) * 1000000000)
    × (r.workspace ≡ to)
    × (r.shown_at_ms ≡ ms)

report-Reported :
    (secs : ℕ) (past : History) (to : Text) (now : ℕ) (ms : ℤ) (left : Option ℕ)
    → focused past ≢ some to
    → left_at to past ≡ left
    → Reported secs past to now ms (report secs to now ms left)
unfolding report
report-Reported secs past to now ms none away e = inr (inl e)
report-Reported secs past to now ms (some t) away e =
    elim (Bool-cases (ltb (now - t) (from_secs secs))) [
      | inl short ↦ rw short (inr (inr (t, e, ltb→lt _ _ short)))
      | inr long ↦ rw long (t, away, e, ground arith, omega arith, omega arith, refl, refl)
    ]

is_current-focus :
    (current : Option Text) (to : Text) → is_current current to ≡ false → current ≢ some to
is_current-focus none to h e = cc
is_current-focus (some prev) to h e = ground (arith, text_eq_iff prev to)

-- Over every history of focus changes, a change to the workspace `to` reports nothing if `to` has
-- the focus already, was never left, or was last left less than `secs` seconds ago; and otherwise
-- it reports `to`, the time on the wall clock, and the whole seconds since `to` was last left.
pub apply_focus-Reported :
    (secs : ℕ) (clock : ℕ → ℤ) (past : History) (to : Text) (now : ℕ)
    → Reported secs past to now
        (clock now)
        (apply_focus (tracked secs clock past) to now (clock now)).1
apply_focus-Reported secs clock past to now =
    let answer =
      IsTracked-report secs past (tracked secs clock past) to now (clock now)
        (tracked-IsTracked secs clock past) in
    elim (Bool-cases (is_current (focused past) to)) [
      | inl here ↦ rw (answer, here) (inl (stays-some (focused past) to here))
      | inr away ↦
          rw (answer, away)
            (report-Reported secs past to now (clock now) (left_at to past)
              (is_current-focus (focused past) to away) refl)
    ]
