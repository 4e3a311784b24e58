-- ===== src/Deploy/Freeze.antt =====
-- policy.go: freeze windows, which are given by the hour of the week.
pub mod Laws
use forge_eng_fabric.Prelude.{ℕ, ◌+◌, ◌*◌, String, Bool, ◌&&◌, ◌||◌, ltb, leb, if◌then◌else◌}

-- time.Weekday is 0 for Sunday to 6 for Saturday.
pub record FreezeWindow : Type 0 where
  pub env : String
  pub reason : String
  pub start_dow : ℕ
  pub start_hour : ℕ
  pub end_dow : ℕ
  pub end_hour : ℕ

-- A moment, as far as the policies read it: its weekday, its hour, and the time itself.
pub record Moment : Type 0 where
  pub weekday : ℕ
  pub hour : ℕ
  pub instant : ℕ

unfoldable pub day_hour : ℕ → ℕ → ℕ
day_hour d h = d * 24 + h

-- FreezeWindow.In
unfoldable pub is_in : FreezeWindow → Moment → Bool
unfolding day_hour
is_in f now =
    let current = day_hour now.weekday now.hour in
    let start = day_hour f.start_dow f.start_hour in
    let stop = day_hour f.end_dow f.end_hour in
    if leb start stop
    then leb start current && ltb current stop
    else leb start current || ltb current stop
