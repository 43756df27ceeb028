-- ===== src/Memreplace/Tests.antt =====
-- memreplace.c on concrete sessions, and its theorems at concrete tables.
use sye.Base.{ℕ, zero, suc, ◌<◌, ◌≡◌, refl, none, some, [], ◌∷◌, arith}
use sye.Memreplace.{
  Sim, lru, wsc, access, run, start, replace_wsc, lru_victim, update_tdu, nb_pages, print_memory,
  unload, pages_that, check_mask, unset_mask, enter, before_load, inc_compteur, replace_lru,
  lru_scan, unload_page, load_page, wsc_scan, wsc_round, update_tdu_loop, stamp_tdu,
}
use sye.Memreplace.Lru.{InTime, AllLater, Chosen, lru_victim-Chosen, FirstOf, lru_victim-FirstOf}
use sye.Memreplace.Evict.{frames}
use sye.Memreplace.Access.{Served, access-Served}
use sye.Memreplace.Invariant.{run-IsTable, start-IsTable}
use sye.Memreplace.Access.{IsTable}
use sye.Memreplace.Trace.{inputs, IsLeastRecent, lru_victim-IsLeastRecent}

-- Pages 0, 1, 2, then 3: page 0 leaves the RAM.
lru_session : print_memory (run lru start (inputs (0 ∷ 1 ∷ 2 ∷ 3 ∷ []))) ≡ (1 ∷ 2 ∷ 3 ∷ [], 0 ∷ [])
unfolding print_memory pages_that run inputs start enter access before_load inc_compteur replace_lru
    lru_victim lru_scan unload unload_page load_page check_mask
lru_session = refl

wsc_session :
    print_memory (run wsc start (inputs (0 ∷ 1 ∷ 7 ∷ 8 ∷ []))) ≡ (2 ∷ 7 ∷ 8 ∷ [], 0 ∷ 1 ∷ 3 ∷ [])
unfolding print_memory pages_that run inputs start enter access before_load replace_wsc wsc_scan
    wsc_round update_tdu update_tdu_loop stamp_tdu unload unload_page load_page check_mask
    unset_mask
wsc_session = refl

three_frames : 0 < frames start
three_frames = omega (arith, start-IsTable.1)

lru_victim-IsLeastRecent_example :
    let s = run lru start (inputs (0 ∷ 1 ∷ 2 ∷ 0 ∷ [])) in
    (v : ℕ) × (lru_victim s ≡ some v) × IsLeastRecent (0 ∷ 1 ∷ 2 ∷ 0 ∷ []) s v
lru_victim-IsLeastRecent_example =
    lru_victim-IsLeastRecent (0 ∷ 1 ∷ 2 ∷ 0 ∷ []) (omega arith) (omega arith)

access-Served_example : Served start 9 (access wsc start 9)
access-Served_example = access-Served wsc start 9 start-IsTable.0 three_frames (omega arith)

run-IsTable_example :
    IsTable (run wsc start (some 9 ∷ none ∷ some 40 ∷ []))
    × (frames (run wsc start (some 9 ∷ none ∷ some 40 ∷ [])) ≡ frames start)
run-IsTable_example =
    run-IsTable wsc (some 9 ∷ none ∷ some 40 ∷ []) start start-IsTable.0 three_frames

-- Pages 2 and 3 in the RAM, accessed at the times 250 and 7.
abbrev two_pages : ℕ → Sim
two_pages now = record { page_table = 0 ∷ 16 ∷ 33 ∷ 49 ∷ []; tdu = 0 ∷ 0 ∷ 250 ∷ 7 ∷ []; tvc = now }

two_pages-InTime : InTime (two_pages 251)
unfolding check_mask
two_pages-InTime zero h = omega arith
two_pages-InTime (suc zero) h = omega arith
two_pages-InTime (suc (suc zero)) h = omega arith
two_pages-InTime (suc (suc (suc zero))) h = omega arith
two_pages-InTime (suc (suc (suc (suc j)))) h = omega arith

lru_victim-Chosen_example : Chosen (two_pages 251) nb_pages (lru_victim (two_pages 251))
lru_victim-Chosen_example = lru_victim-Chosen (two_pages 251) two_pages-InTime

-- After the wrap the time is 3, and both times are later.
two_pages-AllLater : AllLater (two_pages 3)
unfolding check_mask
two_pages-AllLater zero h = cc
two_pages-AllLater (suc zero) h = cc
two_pages-AllLater (suc (suc zero)) h = omega arith
two_pages-AllLater (suc (suc (suc zero))) h = omega arith
two_pages-AllLater (suc (suc (suc (suc j)))) h = cc

lru_victim-FirstOf_example : FirstOf (two_pages 3) (lru_victim (two_pages 3))
lru_victim-FirstOf_example = lru_victim-FirstOf (two_pages 3) two_pages-AllLater

victims : (lru_victim (two_pages 251) ≡ some 3) × (lru_victim (two_pages 3) ≡ some 2)
unfolding lru_victim lru_scan check_mask
victims = (refl, refl)
