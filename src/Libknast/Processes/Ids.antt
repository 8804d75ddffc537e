-- ===== src/Libknast/Processes/Ids.antt =====
-- libknast/src/operations.rs, `process_id`: which records share a key.
use knast.Base.{Text, false, [], ◌∷◌, ◌++◌, ◌≡◌, refl, arith, contains}
use knast.Base.Paths.{slash}
use knast.Libknast.Processes.{process_id}

-- Two texts that go on behind a first slash are equal in both parts.
slash_parts :
    (a b x y : Text)
    → contains slash a ≡ false
    → contains slash b ≡ false
    → a ++ slash ∷ x ≡ b ++ slash ∷ y
    → (a ≡ b) × (x ≡ y)
unfolding contains
slash_parts [] [] x y ha hb p = (refl, cc)
slash_parts [] (c ∷ b) x y ha hb p = ground arith
slash_parts (c ∷ a) [] x y ha hb p = ground arith
slash_parts (c ∷ a) (d ∷ b) x y ha hb p = ground (arith, slash_parts a b x y)

-- Containers whose names have no slash share no process record, and neither do the processes of
-- one container.
pub process_id-injective :
    (key key' exec_id exec_id' : Text)
    → contains slash key ≡ false
    → contains slash key' ≡ false
    → process_id key exec_id ≡ process_id key' exec_id'
    → (key ≡ key') × (exec_id ≡ exec_id')
unfolding process_id
process_id-injective key key' exec_id exec_id' h h' p = slash_parts key key' exec_id exec_id' h h' p
