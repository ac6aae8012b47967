-- ===== src/Pages/Configs/Listed.antt =====
-- ui/src/components/configs/ConfigsList.tsx: a row of the list of configurations, whose ids are
-- shortened (ui/src/components/shared/TruncatedId.tsx). `day_of` is the browser's date of a stamp.
use otel_hive.Base.{
  ℕ, zero, suc, ◌+◌, ◌≤◌, ◌<◌, arith, ◌≡◌, refl, Bool, true, false, Option, none, some, [], ◌∷◌,
  ◌++◌, length, length-append, take, ltb, if◌then◌else◌,
}
use otel_hive.Text.{Text, text, truthy, trim, decimal}

-- `id.length > maxLength ? `${id.slice(0, maxLength)}...` : id`
unfoldable pub truncated : ℕ → Text → Text
truncated max_length id =
    if ltb max_length (length id) then take max_length id ++ text "..." else id

-- Whether the whole id is shown when the pointer is over it.
unfoldable pub should_truncate : ℕ → Text → Bool
should_truncate max_length id = ltb max_length (length id)

-- The copy button: the icon of a copy that was made goes away after two seconds.
pub record CopyButton : Type 0 where
  pub copied : Bool
  pub timers : ℕ
  pub clipboard : Text

pub data CopyEvent : Type 0 where
  copy_done copy_failed timer_ends : CopyEvent

abbrev pub timer_end : ℕ → CopyButton → CopyButton
timer_end zero s = s
timer_end (suc timers) s = record s { copied = false; timers = timers }

unfoldable pub copy_step : Text → CopyButton → CopyEvent → CopyButton
copy_step id s copy_done = record { copied = true; timers = s.timers + 1; clipboard = id }
copy_step id s copy_failed = s
copy_step id s timer_ends = timer_end s.timers s

pub record ListedConfig : Type 0 where
  pub id : Text
  pub name : Option Text
  pub agent_id : Option Text
  pub group_id : Option Text
  pub version : ℕ
  pub config_hash : Text
  pub created_at : Text

pub data Target : Type 0 where
  agent_target group_target : Text → Target
  global_target : Target

abbrev pub unless_blank : Text → Text → Text
unless_blank name [] = text "Unnamed Config"
unless_blank name (c ∷ trimmed) = name

unfoldable pub listed_name : Option Text → Text
unfolding trim
listed_name none = text "Unnamed Config"
listed_name (some name) = unless_blank name (trim name)

unfoldable pub target_of : Option Text → Option Text → Target
unfolding truncated
target_of agent_id group_id = elim (truthy agent_id) [
  | some id ↦ agent_target (truncated 8 id)
  | none ↦ elim (truthy group_id) [ some id ↦ group_target (truncated 8 id) | none ↦ global_target ]
]

pub record ConfigRow : Type 0 where
  pub name : Text
  pub id : Text
  pub target : Target
  pub version : Text
  pub hash : Text
  pub created : Text

unfoldable pub config_row : (Text → Text) → ListedConfig → ConfigRow
unfolding listed_name target_of truncated decimal
config_row day_of c = record {
  name = listed_name c.name;
  id = truncated 8 c.id;
  target = target_of c.agent_id c.group_id;
  version = b'v' ∷ decimal c.version;
  hash = truncated 8 c.config_hash;
  created = day_of c.created_at;
}

length-take-min : (n : ℕ) (s : Text) → n ≤ length s → length (take n s) ≡ n
length-take-min zero s h = refl
length-take-min (suc n) [] h = omega (arith, h)
length-take-min (suc n) (c ∷ s) h = omega (arith, length-take-min n s (omega (arith, h)))

-- An id is shown in full if it is short enough, and is three characters longer than the limit if not.
pub truncated_bounds :
    (max_length : ℕ) (id : Text)
    → (length id ≤ max_length → truncated max_length id ≡ id)
      × (max_length < length id → length (truncated max_length id) ≡ max_length + 3)
unfolding truncated
truncated_bounds max_length id = (
  λ h. let e : ltb max_length (length id) ≡ false = ground arith in rw e refl,
  λ h.
      let e : ltb max_length (length id) ≡ true = ground arith in
      let cut : length (take max_length id) ≡ max_length =
        length-take-min max_length id (omega (arith, h)) in
      rw e (omega (arith, cut, length-append (take max_length id) (text "..."))),
)
