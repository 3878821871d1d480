-- ===== src/Bus/Events.antt =====
-- The events of crates/levshell-core/src/bus.rs, and their kinds. Uuid, which is not code of the
-- program, is the parameter `U`.
use levshell.Prelude.{ℕ, Text, Bool, Option, ◌==◌}
use levshell.Rules.{ℤ}

pub data Event (U : Type 0) : Type 0 where
  workspace_changed : (name : Text) → (focused_window : Option Text) → Event U
  window_focused : (app_id : Option Text) → (title : Text) → Event U
  data_store_updated : (entity_type : Text) → (entity_id : U) → Event U
  power_state_changed : (on_battery : Bool) → Event U
  ac_line_changed : (on_battery : Bool) → Event U
  bar_density_requested : (mode : Text) → Event U
  ui_scale_requested : (value : Text) → Event U
  profile_action_requested : (action : Text) → (name : Option Text) → Event U
  palette_action_requested : (action : Text) → (query : Option Text) → Event U
  command_palette_query_received : (query : Text) → Event U
  command_palette_select_received : (provider : Text) → (item_id : Text) → Event U
  sync_completed :
      (provider : Text)
      → (upserted : ℕ) → (deleted : ℕ) → (conflicts : ℕ) → (duration_ms : ℕ) → Event U
  sync_conflict :
      (provider : Text) → (entity_type : Text) → (external_id : Text) → (reason : Text) → Event U
  sync_error : (provider : Text) → (error : Text) → Event U
  nudge_delivered : (project_id : U) → (kind : Text) → (title : Text) → Event U
  ssh_host_status : (host : Text) → (reachable : Bool) → (latency_ms : Option ℕ) → Event U
  theme_activated : (name : Text) → (variant : Text) → Event U
  presentation_mode_changed : (on : Bool) → Event U
  warmup_action_requested : (action : Text) → Event U
  duck_action_requested : (action : Text) → Event U
  duck_user_message : (text : Text) → Event U
  critical_escalation : (widget_id : Text) → (title : Text) → (body : Text) → Event U
  process_list_requested : Event U
  process_kill_requested : (pid : ℤ) → (signal : Text) → Event U
  widget_action_received : (widget_id : Text) → (action : Text) → (data_ : Text) → Event U
  notify_requested : (title : Text) → (body : Text) → (urgency : Text) → Event U
  focus_session_started : (kind : Text) → (project : Option Text) → (planned_secs : ℕ) → Event U
  focus_session_ended : (kind : Text) → (project : Option Text) → (actual_secs : ℕ) → Event U
  session_timer_command : (action : Text) → Event U

pub data EventKind : Type 0 where
  workspace_changed window_focused data_store_updated power_state_changed ac_line_changed
        bar_density_requested ui_scale_requested profile_action_requested palette_action_requested
        command_palette_query_received command_palette_select_received sync_completed sync_conflict
        sync_error nudge_delivered ssh_host_status theme_activated presentation_mode_changed
        warmup_action_requested duck_action_requested duck_user_message critical_escalation
        process_list_requested process_kill_requested widget_action_received notify_requested
        focus_session_started focus_session_ended session_timer_command :
      EventKind

unfoldable pub kind : {U : Type 0} → Event U → EventKind
kind (Event.workspace_changed _ _) = EventKind.workspace_changed
kind (Event.window_focused _ _) = EventKind.window_focused
kind (Event.data_store_updated _ _) = EventKind.data_store_updated
kind (Event.power_state_changed _) = EventKind.power_state_changed
kind (Event.ac_line_changed _) = EventKind.ac_line_changed
kind (Event.bar_density_requested _) = EventKind.bar_density_requested
kind (Event.ui_scale_requested _) = EventKind.ui_scale_requested
kind (Event.profile_action_requested _ _) = EventKind.profile_action_requested
kind (Event.palette_action_requested _ _) = EventKind.palette_action_requested
kind (Event.command_palette_query_received _) = EventKind.command_palette_query_received
kind (Event.command_palette_select_received _ _) = EventKind.command_palette_select_received
kind (Event.sync_completed _ _ _ _ _) = EventKind.sync_completed
kind (Event.sync_conflict _ _ _ _) = EventKind.sync_conflict
kind (Event.sync_error _ _) = EventKind.sync_error
kind (Event.nudge_delivered _ _ _) = EventKind.nudge_delivered
kind (Event.ssh_host_status _ _ _) = EventKind.ssh_host_status
kind (Event.theme_activated _ _) = EventKind.theme_activated
kind (Event.presentation_mode_changed _) = EventKind.presentation_mode_changed
kind (Event.warmup_action_requested _) = EventKind.warmup_action_requested
kind (Event.duck_action_requested _) = EventKind.duck_action_requested
kind (Event.duck_user_message _) = EventKind.duck_user_message
kind (Event.critical_escalation _ _ _) = EventKind.critical_escalation
kind Event.process_list_requested = EventKind.process_list_requested
kind (Event.process_kill_requested _ _) = EventKind.process_kill_requested
kind (Event.widget_action_received _ _ _) = EventKind.widget_action_received
kind (Event.notify_requested _ _ _) = EventKind.notify_requested
kind (Event.focus_session_started _ _ _) = EventKind.focus_session_started
kind (Event.focus_session_ended _ _ _) = EventKind.focus_session_ended
kind (Event.session_timer_command _) = EventKind.session_timer_command

-- The place of a variant, by which the derived `Eq` and `Hash` tell the kinds apart.
abbrev pub index : EventKind → ℕ
index workspace_changed = 0
index window_focused = 1
index data_store_updated = 2
index power_state_changed = 3
index ac_line_changed = 4
index bar_density_requested = 5
index ui_scale_requested = 6
index profile_action_requested = 7
index palette_action_requested = 8
index command_palette_query_received = 9
index command_palette_select_received = 10
index sync_completed = 11
index sync_conflict = 12
index sync_error = 13
index nudge_delivered = 14
index ssh_host_status = 15
index theme_activated = 16
index presentation_mode_changed = 17
index warmup_action_requested = 18
index duck_action_requested = 19
index duck_user_message = 20
index critical_escalation = 21
index process_list_requested = 22
index process_kill_requested = 23
index widget_action_received = 24
index notify_requested = 25
index focus_session_started = 26
index focus_session_ended = 27
index session_timer_command = 28

abbrev pub kind_eq : EventKind → EventKind → Bool
kind_eq a b = index a == index b
