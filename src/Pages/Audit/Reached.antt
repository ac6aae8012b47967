-- ===== src/Pages/Audit/Reached.antt =====
-- AuditLog.tsx: every entry is on a page that the buttons reach.
use otel_hive.Base.{
  ℕ, zero, suc, ◌+◌, ◌-◌, ◌*◌, ◌/◌, ◌≤◌, ◌<◌, ◌≡◌, refl, ap, ◌∙◌, inl, inr, false, leb, arith,
  Bool-cases,
}
use otel_hive.Pages.Audit.{AuditPage, press_next, total_pages, audit_step}

-- The button for the next page, pressed that often.
abbrev pub next_pages : ℕ → ℕ → AuditPage → AuditPage
next_pages total zero s = s
next_pages total (suc n) s = audit_step total (next_pages total n s) press_next

-- The page is that of the filter chosen before.
abbrev at_page : AuditPage → ℕ → AuditPage
at_page s n = record s { page = n }

next-inside :
    (total : ℕ) (s : AuditPage)
    → s.page < total_pages total
    → audit_step total s press_next ≡ record s { page = s.page + 1 }
unfolding audit_step
next-inside total s h =
    let open_ : leb (total_pages total) s.page ≡ false = ground arith in
    elim (Bool-cases (leb (total_pages total) (s.page + 1))) [
      | inl e ↦
          let last : total_pages total ≡ s.page + 1 = ground arith in
          rw (open_, e) (ap (at_page s) last)
      | inr e ↦ rw (open_, e) refl
    ]

next_pages-eq :
    (total n : ℕ) (s : AuditPage)
    → s.page + n ≤ total_pages total
    → next_pages total n s ≡ record s { page = s.page + n }
next_pages-eq total zero s h = ap (at_page s) (omega arith)
next_pages-eq total (suc n) s h =
    let before = next_pages-eq total n s (omega (arith, h)) in
    ap (λ t. audit_step total t press_next) before
    ∙ next-inside total (at_page s (s.page + n)) (omega (arith, h))
    ∙ ap (at_page s) (omega arith)

-- Each of the entries of the total is on a page that is reached from the first one by pressing the
-- button for the next page, and it stands among the 50 of that page.
pub next_pages-reach :
    (total i : ℕ) (s : AuditPage)
    → s.page ≡ 1
    → i < total
    → (n : ℕ) × (let p = (next_pages total n s).page in (((p - 1) * 50 ≤ i) × (i < p * 50)))
unfolding total_pages
next_pages-reach total i s first h =
    let n = i / 50 in
    let same = ap (λ (t : AuditPage). t.page) (next_pages-eq total n s (omega (arith, first, h))) in
    (n, rw (same, first) (omega arith, omega arith))
