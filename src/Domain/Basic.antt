-- ===== src/Domain/Basic.antt =====
-- Instants and floating-point numbers, as the structs of internal/domain/models.go carry them.
use tinypanel_hub.Prelude.{ℕ, Bool, ltb, nat_eq}

abbrev pub Time : Type 0
Time = ℕ

-- `time.Time{}`
abbrev pub zero_time : Time
zero_time = 0

-- `t.IsZero()`
abbrev pub is_zero_time : Time → Bool
is_zero_time t = nat_eq t 0

-- `t.After(u)`
abbrev pub after : Time → Time → Bool
after t u = ltb u t

abbrev pub Float64 : Type 0
Float64 = ℕ
