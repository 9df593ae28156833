-- ===== src/Approval/Levels/Warnings.antt =====
-- When the approval workflow has no warnings.
use expentra.Prelude.{
  ℕ, suc, ◌≤◌, ◌<◌, String, Bool, true, false, Option, none, some, List, [], ◌∷◌, ◌++◌, map, ◌≡◌,
  ◌↔◌, ◌||◌, ◌==◌, ltb, leb, any, includes, inl, inr, refl, arith, All, All-map, Bool-cases,
}
use expentra.Entities.{ApprovalApproverType, ApprovalLevel}
use expentra.Approval.Levels.Health.{
  is_of, lacks_role, finance_without_role, insert_number, sort_numbers, first_gap, gap_warnings,
  ApprovalLevelHealthWarning, unless, no_finance_level, no_department_manager_level,
  finance_warnings, manager_warnings, role_warnings, build_workflow_warnings,
}

-- Every number between two of the list is in the list.
abbrev pub IsInterval : List ℕ → Type 0
IsInterval ns =
    (n : ℕ) → any (λ m. leb m n) ns ≡ true → any (λ m. leb n m) ns ≡ true → includes ns n ≡ true

any-insert_number :
    (p : ℕ → Bool) (n : ℕ) (ms : List ℕ) → any p (insert_number n ms) ≡ (p n || any p ms)
unfolding insert_number
any-insert_number p n [] = refl
any-insert_number p n (m ∷ ms) = ground (arith, any-insert_number p n ms)

any-sort_numbers : (p : ℕ → Bool) (ns : List ℕ) → any p (sort_numbers ns) ≡ any p ns
unfolding sort_numbers
any-sort_numbers p [] = refl
any-sort_numbers p (n ∷ ns) =
    ground (arith, any-insert_number p n (sort_numbers ns), any-sort_numbers p ns)

abbrev AtLeast : ℕ → List ℕ → Type 0
AtLeast n = All (λ m. n ≤ m)

abbrev IsSorted : List ℕ → Type 0
IsSorted [] = Unit
IsSorted (n ∷ ns) = AtLeast n ns × IsSorted ns

insert_number-AtLeast :
    (k n : ℕ) (ms : List ℕ) → k ≤ n → AtLeast k ms → AtLeast k (insert_number n ms)
unfolding insert_number
insert_number-AtLeast k n [] h a = (h, tt)
insert_number-AtLeast k n (m ∷ ms) h (a, as') = ground (arith, insert_number-AtLeast k n ms h as')

insert_number-IsSorted : (n : ℕ) (ms : List ℕ) → IsSorted ms → IsSorted (insert_number n ms)
unfolding insert_number
insert_number-IsSorted n [] s = (tt, tt)
insert_number-IsSorted n (m ∷ ms) (a, s) = elim (Bool-cases (leb n m)) [
  | inl first ↦
      let le : n ≤ m = ground arith in
      rw first ((le, All-map (λ x h. omega (arith, h, le)) ms a), (a, s))
  | inr later ↦
      rw later (insert_number-AtLeast m n ms (ground arith) a, insert_number-IsSorted n ms s)
]

sort_numbers-IsSorted : (ns : List ℕ) → IsSorted (sort_numbers ns)
unfolding sort_numbers
sort_numbers-IsSorted [] = tt
sort_numbers-IsSorted (n ∷ ns) =
    insert_number-IsSorted n (sort_numbers ns) (sort_numbers-IsSorted ns)

first_gap-IsInterval : (ns : List ℕ) → IsSorted ns → first_gap ns ≡ none → IsInterval ns
unfolding first_gap
first_gap-IsInterval [] s h n below above = absurd (ground arith)
first_gap-IsInterval (a ∷ []) s h n below above = ground arith
first_gap-IsInterval (a ∷ b ∷ rest) (m, s) h n below above =
    let close : ltb (suc a) b ≡ false = ground arith in
    let none_after : first_gap (b ∷ rest) ≡ none = ground arith in
    let later = first_gap-IsInterval (b ∷ rest) s none_after n in ground (arith, later)

-- No number of the list is below its least.
AtLeast-includes : (k n : ℕ) (ms : List ℕ) → AtLeast k ms → n < k → includes ms n ≡ false
AtLeast-includes k n [] a h = refl
AtLeast-includes k n (m ∷ ms) (a, as') h = ground (arith, AtLeast-includes k n ms as' h)

AtLeast-any : (k n : ℕ) (ms : List ℕ) → AtLeast k ms → n < k → any (λ m. leb m n) ms ≡ false
AtLeast-any k n [] a h = refl
AtLeast-any k n (m ∷ ms) (a, as') h = ground (arith, AtLeast-any k n ms as' h)

IsInterval-first_gap : (ns : List ℕ) → IsSorted ns → IsInterval ns → first_gap ns ≡ none
unfolding first_gap
IsInterval-first_gap [] s h = refl
IsInterval-first_gap (a ∷ []) s h = refl
IsInterval-first_gap (a ∷ b ∷ rest) ((ab, ar), (br, s)) h = elim (Bool-cases (ltb (suc a) b)) [
  | inl gap ↦
      let missing = AtLeast-includes b (suc a) (b ∷ rest) (omega arith, br) (ground arith) in
      let present = h (suc a) (ground arith) (ground arith) in
      absurd (ground (arith, missing, present))
  | inr close ↦
      let tail =
        IsInterval-first_gap (b ∷ rest) (br, s)
          λ n below above.
            let inside = h n (ground (arith, below)) (ground (arith, above)) in
            let before = AtLeast-any b n (b ∷ rest) (omega arith, br) in
            ground (arith, inside, before, below) in
      rw close tail
]

-- The interval of the numbers of levels, sorted or not.
sort_numbers-IsInterval : (ns : List ℕ) → IsInterval (sort_numbers ns) ↔ IsInterval ns
sort_numbers-IsInterval ns = (
  λ h n below above. ground (
    arith,
    h n,
    any-sort_numbers (λ m. leb m n) ns,
    any-sort_numbers (λ m. leb n m) ns,
    any-sort_numbers (λ m. m == n) ns,
    below,
    above,
  ),
  λ h n below above. ground (
    arith,
    h n,
    any-sort_numbers (λ m. leb m n) ns,
    any-sort_numbers (λ m. leb n m) ns,
    any-sort_numbers (λ m. m == n) ns,
    below,
    above,
  ),
)

-- Both kinds of levels are there, each finance level has a role, and the numbers leave no gap.
pub record IsHealthy (levels : List ApprovalLevel) : Type 0 where
  pub finance : any (is_of ApprovalApproverType.finance_manager) levels ≡ true
  pub manager : any (is_of ApprovalApproverType.department_manager) levels ≡ true
  pub roles :
      All (λ l. is_of ApprovalApproverType.finance_manager l ≡ true → lacks_role l ≡ false) levels
  pub numbers : IsInterval (map (λ l. l.level) levels)

finance_without_role-roles :
    (levels : List ApprovalLevel)
    → finance_without_role levels ≡ []
    → All (λ l. is_of ApprovalApproverType.finance_manager l ≡ true → lacks_role l ≡ false) levels
finance_without_role-roles [] h = tt
finance_without_role-roles (l ∷ ls) h =
    (λ of. ground (arith, of), finance_without_role-roles ls (ground arith))

roles-finance_without_role :
    (levels : List ApprovalLevel)
    → All (λ l. is_of ApprovalApproverType.finance_manager l ≡ true → lacks_role l ≡ false) levels
    → finance_without_role levels ≡ []
roles-finance_without_role [] h = refl
roles-finance_without_role (l ∷ ls) (h, hs) = ground (arith, roles-finance_without_role ls hs)

append-nil {ℓ} : {A : Type ℓ} (xs ys : List A) → xs ++ ys ≡ [] → (xs ≡ []) × (ys ≡ [])
append-nil [] ys h = (refl, h)
append-nil (x ∷ xs) ys h = absurd (ground arith)

unless-nil : (c : Bool) (w : ApprovalLevelHealthWarning) → unless c w ≡ [] → c ≡ true
unless-nil true w h = refl
unless-nil false w h = absurd (ground arith)

role_warnings-nil : (ls : List ApprovalLevel) → role_warnings ls ≡ [] → ls ≡ []
role_warnings-nil [] h = refl
role_warnings-nil (l ∷ ls) h = absurd (ground arith)

module _ (number_text : ℕ → String) where
  gap_warnings-nil : (gap : Option (ℕ × ℕ)) → gap_warnings number_text gap ≡ [] → gap ≡ none
  gap_warnings-nil none h = refl
  gap_warnings-nil (some g) h = absurd (ground arith)

  warnings-IsHealthy :
      (levels : List ApprovalLevel)
      → build_workflow_warnings number_text levels ≡ []
      → IsHealthy levels
  unfolding build_workflow_warnings
  warnings-IsHealthy [] h = absurd (ground arith)
  warnings-IsHealthy (l ∷ ls) h =
      let ls' = l ∷ ls in
      let ns = map (λ x. x.level) ls' in
      let gaps = gap_warnings number_text (first_gap (sort_numbers ns)) in
      let roles = role_warnings (finance_without_role ls') in
      let (no_finance, h1) =
        append-nil (finance_warnings ls') (manager_warnings ls' ++ (roles ++ gaps)) h in
      let (no_manager, h2) = append-nil (manager_warnings ls') (roles ++ gaps) h1 in
      let (no_role, no_gap) = append-nil roles gaps h2 in
      record {
        finance =
            unless-nil (any (is_of ApprovalApproverType.finance_manager) ls') no_finance_level
              no_finance;
        manager =
            unless-nil (any (is_of ApprovalApproverType.department_manager) ls')
              no_department_manager_level no_manager;
        roles =
            finance_without_role-roles ls' (role_warnings-nil (finance_without_role ls') no_role);
        numbers = (sort_numbers-IsInterval ns).0 (
            first_gap-IsInterval (sort_numbers ns) (sort_numbers-IsSorted ns)
              (gap_warnings-nil (first_gap (sort_numbers ns)) no_gap));
      }

  IsHealthy-warnings :
      (levels : List ApprovalLevel)
      → IsHealthy levels
      → build_workflow_warnings number_text levels ≡ []
  unfolding build_workflow_warnings
  IsHealthy-warnings [] h = absurd (ground (arith, h.finance))
  IsHealthy-warnings (l ∷ ls) h =
      let e = roles-finance_without_role (l ∷ ls) h.roles in
      let f =
        IsInterval-first_gap (sort_numbers (map (λ x. x.level) (l ∷ ls)))
          (sort_numbers-IsSorted (map (λ x. x.level) (l ∷ ls)))
          ((sort_numbers-IsInterval (map (λ x. x.level) (l ∷ ls))).1 h.numbers) in
      rw (e, f, h.finance, h.manager) refl

  -- The workflow has no warnings exactly when both a finance level and a department manager's level
  -- are among the active ones, each finance level has a role, and every number between two of their
  -- numbers is the number of one of them.
  pub build_workflow_warnings-empty_iff :
      (levels : List ApprovalLevel)
      → (build_workflow_warnings number_text levels ≡ []) ↔ IsHealthy levels
  build_workflow_warnings-empty_iff levels = (warnings-IsHealthy levels, IsHealthy-warnings levels)
