-- ===== src/Control/Admin/Logs.antt =====
-- The bound on the in-memory log (`appendLog` in internal/control/service.go).
use pons_mm_desktop.Prelude.{
  ℕ, suc, zero, ◌-◌, ◌≤◌, ◌≡◌, refl, Bool-cases, inl, inr, List, [], ◌∷◌, ◌++◌, if◌then◌else◌, ltb,
  length, length-drop, drop, length-append, arith,
}
use pons_mm_desktop.Control.Admin.{append_log, max_logs}

drop-append : (n : ℕ) (xs ys : List ℕ) → n ≤ length xs → drop n (xs ++ ys) ≡ drop n xs ++ ys
drop-append zero xs ys h = refl
drop-append (suc n) [] ys h = absurd (omega arith)
drop-append (suc n) (x ∷ xs) ys h = drop-append n xs ys (omega arith)

-- From a log within its bound, appending stays within it, always keeps the new entry as the last,
-- and drops at most the oldest one.
pub append_log_lem :
    (logs : List ℕ) (entry : ℕ)
    → length logs ≤ max_logs
    → (length (append_log logs entry) ≤ max_logs)
      × (append_log logs entry
          ≡ (if ltb (length logs) max_logs then logs else drop 1 logs) ++ entry ∷ [])
unfolding append_log
append_log_lem logs entry h =
    let n = length-append logs (entry ∷ []) in
    elim (Bool-cases (ltb (length logs) max_logs)) [
      | inl p ↦ ground (arith, n)
      | inr p ↦
          let one : length (logs ++ entry ∷ []) - max_logs ≡ 1 = ground (arith, n) in
          rw (one, p)
            (ground (arith, n, length-drop 1 (logs ++ entry ∷ []), drop-append 1 logs (entry ∷ [])))
    ]
