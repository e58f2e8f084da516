-- ===== src/Tests/Deleted.antt =====
-- The theorems on the store of removed files at concrete stores.
use fsyncer.Base.{ℕ, List, [], ◌∷◌, refl, arith}
use fsyncer.FileStore.Tokens.{store}
use fsyncer.FileStore.Space.{held}
use fsyncer.FileStore.Stores.{IsStored, store-IsStored}

abbrev two_files : List (ℕ × ℕ)
two_files = (3, 40) ∷ (4, 50) ∷ []

store-IsStored_example : IsStored 3 5 100 30 two_files (store 2 (held 3 5 100 two_files) 30)
store-IsStored_example =
    store-IsStored 2 3 5 100 30 two_files (omega arith) (refl, (refl, refl)) (omega arith)
