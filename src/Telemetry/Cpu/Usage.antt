-- ===== src/Telemetry/Cpu/Usage.antt =====
-- What `usage_percent` of crates/levshell-modules/src/telemetry/cpu.rs measures.
use levshell.Prelude.{ℕ, ◌+◌, ◌-◌, ◌^◌, ◌≤◌, ◌<◌, ◌≡◌, refl, ◌==◌, if◌then◌else◌, arith}
use levshell.Telemetry.Cpu.{Percents, CpuSample, u64_sub, total, idle_total, usage_percent}

-- No counter goes back.
pub record IsLater (curr prev : CpuSample) : Type 0 where
  pub user_grows : prev.user ≤ curr.user
  pub nice_grows : prev.nice ≤ curr.nice
  pub system_grows : prev.system ≤ curr.system
  pub idle_grows : prev.idle ≤ curr.idle
  pub iowait_grows : prev.iowait ≤ curr.iowait
  pub irq_grows : prev.irq ≤ curr.irq
  pub softirq_grows : prev.softirq ≤ curr.softirq
  pub steal_grows : prev.steal ≤ curr.steal

-- The time spent busy between the samples, counter by counter.
abbrev pub busy : CpuSample → CpuSample → ℕ
busy curr prev =
    (curr.user - prev.user)
    + (curr.nice - prev.nice)
    + (curr.system - prev.system)
    + (curr.irq - prev.irq)
    + (curr.softirq - prev.softirq)
    + (curr.steal - prev.steal)

abbrev pub unused : CpuSample → CpuSample → ℕ
unused curr prev = (curr.idle - prev.idle) + (curr.iowait - prev.iowait)

abbrev pub sum : CpuSample → ℕ
sum c = c.user + c.nice + c.system + c.idle + c.iowait + c.irq + c.softirq + c.steal

total-sum : (c : CpuSample) → sum c < 2 ^ 64 → total c ≡ sum c
unfolding total
total-sum c h = omega (arith, h)

idle_total-sum : (c : CpuSample) → sum c < 2 ^ 64 → idle_total c ≡ c.idle + c.iowait
unfolding idle_total
idle_total-sum c h = omega (arith, h)

earlier-sum : (curr prev : CpuSample) → IsLater curr prev → sum curr < 2 ^ 64 → sum prev < 2 ^ 64
earlier-sum curr prev l h = omega (
  arith, h, l.user_grows, l.nice_grows, l.system_grows, l.idle_grows, l.iowait_grows, l.irq_grows,
  l.softirq_grows, l.steal_grows,
)

grown : {a b : ℕ} → a ≤ b → b ≡ a + (b - a)
grown h = omega (arith, h)

-- The sum grows by what each counter grows by.
sum_apart :
    (c p : CpuSample) (d1 d2 d3 d4 d5 d6 d7 d8 : ℕ)
    → c.user ≡ p.user + d1
    → c.nice ≡ p.nice + d2
    → c.system ≡ p.system + d3
    → c.idle ≡ p.idle + d4
    → c.iowait ≡ p.iowait + d5
    → c.irq ≡ p.irq + d6
    → c.softirq ≡ p.softirq + d7
    → c.steal ≡ p.steal + d8
    → sum c - sum p ≡ (d1 + d2 + d3 + d6 + d7 + d8) + (d4 + d5)
sum_apart c p d1 d2 d3 d4 d5 d6 d7 d8 e1 e2 e3 e4 e5 e6 e7 e8 =
    omega (arith, e1, e2, e3, e4, e5, e6, e7, e8)

total-busy :
    (curr prev : CpuSample)
    → IsLater curr prev
    → sum curr < 2 ^ 64
    → total curr - total prev ≡ busy curr prev + unused curr prev
total-busy curr prev l h =
    let before = earlier-sum curr prev l h in
    let apart : sum curr - sum prev ≡ busy curr prev + unused curr prev =
      sum_apart curr prev (curr.user - prev.user) (curr.nice - prev.nice)
        (curr.system - prev.system) (curr.idle - prev.idle) (curr.iowait - prev.iowait)
        (curr.irq - prev.irq) (curr.softirq - prev.softirq) (curr.steal - prev.steal)
        (grown l.user_grows) (grown l.nice_grows) (grown l.system_grows) (grown l.idle_grows)
        (grown l.iowait_grows) (grown l.irq_grows) (grown l.softirq_grows) (grown l.steal_grows) in
    rw (total-sum curr h, total-sum prev before) apart

idle_total-unused :
    (curr prev : CpuSample)
    → IsLater curr prev
    → sum curr < 2 ^ 64
    → idle_total curr - idle_total prev ≡ unused curr prev
idle_total-unused curr prev l h =
    let before = earlier-sum curr prev l h in
    omega (arith, idle_total-sum curr h, idle_total-sum prev before, l.idle_grows, l.iowait_grows)

u64_sub-part : (part rest : ℕ) → part + rest < 2 ^ 64 → u64_sub (part + rest) rest ≡ part
u64_sub-part part rest h = omega (arith, h)

-- If no counter goes back and the counters together fit in a u64, the percentage is that of the time
-- spent busy, counter by counter, in the whole time between the samples; nothing wraps. If no time has
-- passed, it is zero.
pub usage_percent-busy :
    {N : Type 0} (percents : Percents N) (curr prev : CpuSample)
    → IsLater curr prev
    → sum curr < 2 ^ 64
    → usage_percent percents curr prev ≡ (
        if busy curr prev + unused curr prev == 0
        then percents.zero_percent
        else percents.ratio (busy curr prev) (busy curr prev + unused curr prev))
unfolding usage_percent
usage_percent-busy percents curr prev l h =
    let all = total-busy curr prev l h in
    let idle = idle_total-unused curr prev l h in
    let small : busy curr prev + unused curr prev < 2 ^ 64 =
      omega (arith, all, total-sum curr h, h) in
    let part = u64_sub-part (busy curr prev) (unused curr prev) small in rw (all, idle, part) refl
