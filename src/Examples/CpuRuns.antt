-- ===== src/Examples/CpuRuns.antt =====
-- Samples for crates/levshell-modules/src/telemetry/cpu.rs.
use levshell.Prelude.{
  ℕ, ◌+◌, ◌*◌, ◌/◌, ◌==◌, ◌≡◌, refl, leb, Option, none, some, List, [], ◌∷◌, if◌then◌else◌, arith,
}
use levshell.Escalation.{ambient}
use levshell.Telemetry.Cpu.{Percents, CpuSample, CpuModule, total, idle_total, usage_percent}
use levshell.Telemetry.Cpu.Usage.{IsLater, busy, unused, usage_percent-busy}
use levshell.Telemetry.Cpu.Window.{newest, usages, run, run-window}

abbrev whole_percents : Percents ℕ
whole_percents = record {
  zero_percent = 0;
  ratio = λ part whole. part * 100 / whole;
  at_least = λ n limit. leb limit n;
}

abbrev first : CpuSample
first = record {
  user = 100;
  nice = 0;
  system = 50;
  idle = 800;
  iowait = 20;
  irq = 0;
  softirq = 5;
  steal = 0;
}

abbrev second : CpuSample
second = record {
  user = 180;
  nice = 0;
  system = 60;
  idle = 810;
  iowait = 20;
  irq = 0;
  softirq = 5;
  steal = 0;
}

-- A counter of the busy time that has gone back.
abbrev back : CpuSample
back = record second { user = 170; idle = 860 }

second-IsLater : IsLater second first
second-IsLater = record {
  user_grows = omega arith;
  nice_grows = omega arith;
  system_grows = omega arith;
  idle_grows = omega arith;
  iowait_grows = omega arith;
  irq_grows = omega arith;
  softirq_grows = omega arith;
  steal_grows = omega arith;
}

usage_percent-busy_example : usage_percent whole_percents second first ≡ (
    if busy second first + unused second first == 0
    then 0
    else whole_percents.ratio (busy second first) (busy second first + unused second first))
usage_percent-busy_example =
    usage_percent-busy whole_percents second first second-IsLater (omega arith)

usage_test : usage_percent whole_percents second first ≡ 90
unfolding usage_percent total idle_total
usage_test = refl

-- Then the difference wraps, and the percentage has no bound.
usage_wraps_test : usage_percent whole_percents back second ≡ 46116860184273879015
unfolding usage_percent total idle_total
usage_wraps_test = refl

abbrev started : CpuModule ℕ
started = record {
  last_sample = some first;
  escalation = record { current = ambient };
  history = [];
}

abbrev samples : List (CpuSample × Option ℕ)
samples = (second, none) ∷ (second, some 1) ∷ []

run-window_example :
    (run whole_percents started samples).history ≡ newest (usages whole_percents first samples)
run-window_example = run-window whole_percents started first samples [] refl refl
