-- ===== src/Deploy/Freeze/Laws.antt =====
-- Freeze windows as arcs of the week, which has 168 hours.
use forge_eng_fabric.Prelude.{
  ℕ, ◌+◌, ◌-◌, ◌%◌, ◌<◌, ◌≡◌, ◌≢◌, not, ◌&&◌, ◌||◌, ltb, leb, arith, if◌then◌else◌,
}
use forge_eng_fabric.Deploy.Freeze.{FreezeWindow, Moment, day_hour, is_in}

abbrev pub start_of : FreezeWindow → ℕ
unfolding day_hour
start_of f = day_hour f.start_dow f.start_hour

abbrev pub end_of : FreezeWindow → ℕ
unfolding day_hour
end_of f = day_hour f.end_dow f.end_hour

abbrev pub hour_of : Moment → ℕ
unfolding day_hour
hour_of now = day_hour now.weekday now.hour

-- The hours from one hour of the week to another, forwards.
abbrev pub hours_from : ℕ → ℕ → ℕ
hours_from a b = (b + (168 - a)) % 168

-- The window that begins where this one ends, and ends where it begins.
abbrev pub opposite : FreezeWindow → FreezeWindow
opposite f = record f {
  start_dow = f.end_dow;
  start_hour = f.end_hour;
  end_dow = f.start_dow;
  end_hour = f.start_hour;
}

arc :
    (s e c : ℕ)
    → s < 168
    → e < 168
    → c < 168
    → (if leb s e then leb s c && ltb c e else leb s c || ltb c e)
      ≡ ltb (hours_from s c) (hours_from s e)
arc s e c hs he hc = ground arith

-- For hours of the week, a moment is in a freeze window exactly when it is reached, going forwards
-- from the start of the window, before the end of the window is, also where that wraps around the
-- end of the week. A window that ends where it starts is empty.
pub in_window_is_arc :
    (f : FreezeWindow) (now : Moment)
    → start_of f < 168
    → end_of f < 168
    → hour_of now < 168
    → is_in f now ≡ ltb (hours_from (start_of f) (hour_of now)) (hours_from (start_of f) (end_of f))
unfolding is_in day_hour
in_window_is_arc f now hs he hc = arc (start_of f) (end_of f) (hour_of now) hs he hc

sides :
    (s e c : ℕ)
    → s ≢ e
    → (if leb e s then leb e c && ltb c s else leb e c || ltb c s)
      ≡ not (if leb s e then leb s c && ltb c e else leb s c || ltb c e)
sides s e c h = ground arith

-- A window and the one from its end to its start share no moment and leave none out, where the two
-- bounds differ.
pub opposite_windows_partition :
    (f : FreezeWindow) (now : Moment)
    → start_of f ≢ end_of f
    → is_in (opposite f) now ≡ not (is_in f now)
unfolding is_in day_hour
opposite_windows_partition f now h = sides (start_of f) (end_of f) (hour_of now) h
