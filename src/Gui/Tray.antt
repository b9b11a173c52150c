-- ===== src/Gui/Tray.antt =====
-- The menu of the tray and its tooltip: gui/src/tray.rs. Building the icon is glue over its library.
use lecoo_control_center.Base.{Bool, true, false, List, [], ◌∷◌, ◌++◌, if◌then◌else◌, ◌&&◌}
use lecoo_control_center.Base.Text.{Text, codes, text_eq, decimal}
use lecoo_control_center.Base.Action.{Action, pure, ignore, ◌>>◌}
use lecoo_control_center.Ipc.Settings.{PowerProfile, FanIndex, FanMode}
use lecoo_control_center.Gui.State.{Telemetry}
use lecoo_control_center.Gui.Desktop.{World, Gui, change}
use lecoo_control_center.Gui.Commands.{apply_power_profile, apply_fan_mode, bring_window_to_front}

-- The entries of the menu, an item with its id and its label.
pub data Entry : Type 0 where
  item : Text → Text → Entry
  separator : Entry
  submenu : Text → List (Text × Text) → Entry

-- The menu that `install` gives the icon.
abbrev pub tray_menu : List Entry
tray_menu =
    Entry.item (codes "show") (codes "Open window")
    ∷ Entry.separator
    ∷ Entry.submenu (codes "Power profile") (
        (codes "profile_silent", codes "Silent")
        ∷ (codes "profile_default", codes "Default")
        ∷ (codes "profile_perf", codes "Performance")
        ∷ [])
    ∷ Entry.submenu (codes "Fans (CPU)")
        ((codes "fan_auto", codes "Auto") ∷ (codes "fan_full", codes "Full") ∷ [])
    ∷ Entry.separator
    ∷ Entry.item (codes "quit") (codes "Quit")
    ∷ []

-- A click on the icon, with which button and whether it is let go.
pub record Click : Type 0 where
  pub is_left : Bool
  pub is_up : Bool

-- The lines of the tooltip; the readings are whole, so that rounding leaves them.
unfoldable pub tooltip : Telemetry → Text
tooltip telem =
    codes "Lecoo Control Center"
    ++ (10 ∷ codes "CPU "
        ++ (decimal telem.cpu_temp_c
            ++ (codes "°C · CPU fan "
                ++ (decimal telem.cpu_fan_rpm
                    ++ (codes " rpm"
                        ++ (10 ∷ codes "Sys "
                            ++ (decimal telem.sys_temp_c
                                ++ (codes "°C · GPU fan "
                                    ++ (decimal telem.gpu_fan_rpm ++ codes " rpm")))))))))

module _ {S : Type 0} (d : World S) where
  -- A command of the menu: its error is only logged.
  abbrev logged : Action (Gui S) (Unit {0}) → Action (Gui S) Bool
  logged command = ignore command >> pure false

  -- The handler of the menu's events by their ids: whether the application exits.
  unfoldable pub on_menu_event : Text → Action (Gui S) Bool
  on_menu_event id =
      if text_eq id (codes "show")
      then change bring_window_to_front >> pure false
      else if text_eq id (codes "quit")
      then pure true
      else if text_eq id (codes "profile_silent")
      then logged (apply_power_profile d PowerProfile.silent)
      else if text_eq id (codes "profile_default")
      then logged (apply_power_profile d PowerProfile.default)
      else if text_eq id (codes "profile_perf")
      then logged (apply_power_profile d PowerProfile.performance)
      else if text_eq id (codes "fan_auto")
      then logged (apply_fan_mode d FanIndex.cpu FanMode.auto)
      else if text_eq id (codes "fan_full")
      then logged (apply_fan_mode d FanIndex.cpu FanMode.full)
      else pure false

  abbrev pub on_tray_icon_event : Click → Action (Gui S) (Unit {0})
  on_tray_icon_event click =
      if click.is_left && click.is_up then change bring_window_to_front else pure tt
