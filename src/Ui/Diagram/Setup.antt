-- ===== src/Ui/Diagram/Setup.antt =====
-- Where the buttons of `Ui.Handler.Setup` lead.
use qidi_plus.Base.{ℕ, false, [], ◌∷◌}
use qidi_plus.Screen.{tjc_page_open_video_4, tjc_page_main}
use qidi_plus.Ui.Pages.{
  tjc_page_open_levelinit, tjc_page_open_leveling, tjc_page_open_syntony, tjc_page_more_level,
  tjc_page_open_video_1, tjc_page_open_video_2, tjc_page_open_video_3, tjc_page_filament_video_1,
  tjc_page_filament_video_2, tjc_page_filament_video_3, tjc_page_saving, tjc_page_open_pop_1,
}
use qidi_plus.Ui.Handler.Setup.{
  open_language_clicked, open_video_1_clicked, open_video_2_clicked, open_video_3_clicked,
  open_video_4_clicked, open_level_clicked, open_leveled_clicked, null_2_clicked,
  filament_video_1_clicked, filament_video_2_clicked, filament_video_3_clicked, more_level_clicked,
  more_level_plu_clicked,
}
use qidi_plus.Ui.Footprint.{Footprint}
use qidi_plus.Ui.Diagram.Rules.{pages}

pub open_language_clicked-Footprint :
    (widget : ℕ)
    → Footprint
        (tjc_page_open_video_1 ∷ tjc_page_open_pop_1 ∷ [])
        false
        (open_language_clicked widget)
unfolding open_language_clicked
open_language_clicked-Footprint widget = search (pages) depth 8

pub open_video_1_clicked-Footprint :
    (widget : ℕ) → Footprint (tjc_page_open_video_2 ∷ []) false (open_video_1_clicked widget)
unfolding open_video_1_clicked
open_video_1_clicked-Footprint widget = search (pages) depth 7

pub open_video_2_clicked-Footprint :
    (widget : ℕ) → Footprint (tjc_page_open_video_3 ∷ []) false (open_video_2_clicked widget)
unfolding open_video_2_clicked
open_video_2_clicked-Footprint widget = search (pages) depth 7

pub open_video_3_clicked-Footprint :
    (widget : ℕ) → Footprint (tjc_page_open_video_4 ∷ []) false (open_video_3_clicked widget)
unfolding open_video_3_clicked
open_video_3_clicked-Footprint widget = search (pages) depth 7

pub open_video_4_clicked-Footprint :
    (widget : ℕ) → Footprint (tjc_page_filament_video_1 ∷ []) false (open_video_4_clicked widget)
unfolding open_video_4_clicked
open_video_4_clicked-Footprint widget = search (pages) depth 9

pub open_level_clicked-Footprint :
    (widget : ℕ)
    → Footprint (tjc_page_open_leveling ∷ tjc_page_saving ∷ []) false (open_level_clicked widget)
unfolding open_level_clicked
open_level_clicked-Footprint widget = search (pages) depth 16

pub open_leveled_clicked-Footprint :
    (widget : ℕ) → Footprint (tjc_page_open_syntony ∷ []) false (open_leveled_clicked widget)
unfolding open_leveled_clicked
open_leveled_clicked-Footprint widget = search (pages) depth 8

pub null_2_clicked-Footprint :
    (widget : ℕ) → Footprint (tjc_page_open_levelinit ∷ []) false (null_2_clicked widget)
unfolding null_2_clicked
null_2_clicked-Footprint widget = search (pages) depth 10

pub filament_video_1_clicked-Footprint :
    (widget : ℕ)
    → Footprint (tjc_page_filament_video_2 ∷ []) false (filament_video_1_clicked widget)
unfolding filament_video_1_clicked
filament_video_1_clicked-Footprint widget = search (pages) depth 9

pub filament_video_2_clicked-Footprint :
    (widget : ℕ)
    → Footprint (tjc_page_filament_video_3 ∷ []) false (filament_video_2_clicked widget)
unfolding filament_video_2_clicked
filament_video_2_clicked-Footprint widget = search (pages) depth 10

pub filament_video_3_clicked-Footprint :
    (widget : ℕ) → Footprint (tjc_page_more_level ∷ []) false (filament_video_3_clicked widget)
unfolding filament_video_3_clicked
filament_video_3_clicked-Footprint widget = search (pages) depth 8

pub more_level_clicked-Footprint :
    (widget : ℕ) → Footprint (tjc_page_main ∷ []) false (more_level_clicked widget)
unfolding more_level_clicked
more_level_clicked-Footprint widget = search (pages) depth 9

pub more_level_plu_clicked-Footprint :
    (widget : ℕ)
    → Footprint (tjc_page_more_level ∷ tjc_page_main ∷ []) false (more_level_plu_clicked widget)
unfolding more_level_plu_clicked
more_level_plu_clicked-Footprint widget = search (pages) depth 8
