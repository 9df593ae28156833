-- ===== src/Store/Rows.antt =====
-- What is stored of an entity is what its key then finds.
use expentra.Prelude.{some, List, [], ◌∷◌, ◌≡◌, ◌==◌, refl, arith, find?}
use expentra.Entities.{Expense}
use expentra.Store.{Db, find_expense, save_expense, saved_row, replace_expense}

pub saved_row-id : (row e : Expense) → (saved_row row e).id ≡ e.id
unfolding saved_row
saved_row-id row e = refl

find-replace_expense :
    (e : Expense) (es : List Expense) (old : Expense)
    → find? (λ x. x.id == e.id) es ≡ some old
    → find? (λ x. x.id == e.id) (replace_expense e es) ≡ some (saved_row old e)
unfolding replace_expense
find-replace_expense e [] old h = cc
find-replace_expense e (x ∷ xs) old h =
    ground (arith, saved_row-id x e, find-replace_expense e xs old)

pub find-save_expense :
    (e : Expense) (db : Db) (old : Expense)
    → find_expense db e.id ≡ some old
    → find_expense (save_expense e db) e.id ≡ some (saved_row old e)
unfolding find_expense save_expense
find-save_expense e db old h = find-replace_expense e db.expenses old h
