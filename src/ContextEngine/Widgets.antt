-- ===== src/ContextEngine/Widgets.antt =====
-- The widgets that crates/levshell-modules/src/context_engine.rs builds in.
use Prim.Native.String.{String}
use levshell.Prelude.{ℕ, bytes, List, [], ◌∷◌}
use levshell.Prominence.{Prominence}
use levshell.Rules.{WidgetDef, Zone, left, center, right, pos}
use levshell.ContextEngine.State.{ContextEngine, new, with_widgets}

-- `WidgetDef::new(..).with_default(..).with_priority(..).with_zone(..)`.
abbrev pub built_in : String → String → Prominence → ℕ → Zone → WidgetDef
built_in id widget_type default_prominence priority zone = record {
  id = bytes id;
  widget_type = bytes widget_type;
  default_prominence = default_prominence;
  priority = pos priority;
  zone = zone;
}

unfoldable pub default_widgets : List WidgetDef
default_widgets =
    built_in "workspace-indicator" "workspace_indicator" Prominence.visible 100 left
    ∷ built_in "interruption-cost" "interruption_cost" Prominence.visible 95 left
    ∷ built_in "clock" "clock" Prominence.visible 90 center
    ∷ built_in "cpu" "cpu" Prominence.compact 40 right
    ∷ built_in "memory" "memory" Prominence.compact 45 right
    ∷ built_in "disk" "disk" Prominence.compact 50 right
    ∷ built_in "network" "network" Prominence.icon_only 55 right
    ∷ built_in "power-profile" "power_profile" Prominence.compact 58 right
    ∷ built_in "battery" "battery" Prominence.icon_only 60 right
    ∷ built_in "notifications" "notifications" Prominence.icon_only 20 right
    ∷ built_in "control-center" "control_center" Prominence.icon_only 25 right
    ∷ built_in "system-tray" "system_tray" Prominence.icon_only 22 right
    ∷ built_in "project-pulse" "project_pulse" Prominence.compact 92 left
    ∷ built_in "session-timer" "session_timer" Prominence.compact 62 right
    ∷ built_in "anki-due" "anki_due" Prominence.icon_only 39 right
    ∷ built_in "latex-status" "latex_status" Prominence.icon_only 38 right
    ∷ built_in "remote-jobs" "remote_jobs" Prominence.icon_only 37 right
    ∷ built_in "gpu-fleet" "gpu_fleet" Prominence.icon_only 36 right
    ∷ built_in "ssh-fleet" "ssh_fleet" Prominence.icon_only 35 right
    ∷ built_in "arxiv-watch" "arxiv_watch" Prominence.icon_only 34 right
    ∷ built_in "reference-library" "reference_library" Prominence.icon_only 33 right
    ∷ []

unfoldable pub default_context_engine : {N : Type 0} → ContextEngine N
default_context_engine = with_widgets new default_widgets
