-- ===== src/Examples/Lru.antt =====
-- A `CLruCache` at work, and its theorems at a concrete run.
use lce.Prelude.{ℕ, ◌≡◌, refl, List, [], ◌∷◌, some, none, true, arith}
use lce.LruCache.{
  build, set, set_old, set_new, get, del, free, make_room, add_to_list_head, remove_from_list,
  unlink, read, modify, write, erase, insert,
}
use lce.LruCache.Calls.{Leaves}
use lce.LruCache.Serve.{
  Call, set_call, get_call, del_call, done, found, Allocates, run, run_spec, serve_in_order,
}

-- Key 1 expires after 5 seconds; key 2 is set twice.
abbrev some_calls : List (Call ℕ)
some_calls =
    set_call 1 10 5 100 64
    ∷ set_call 2 20 0 100 96
    ∷ get_call 1 103
    ∷ set_call 2 21 0 104 128
    ∷ get_call 1 110
    ∷ get_call 2 110
    ∷ del_call 3
    ∷ []

some_calls-Allocates : Allocates (build 5) some_calls
unfolding build set set_old set_new get del add_to_list_head remove_from_list unlink read modify
    free write erase insert make_room
some_calls-Allocates =
    ((λ e. omega arith, refl), ((λ e. omega arith, refl), (tt, (tt, (tt, (tt, (tt, tt)))))))

some_replies :
    (run_spec 10000 [] some_calls).1
    ≡ done true
      ∷ done true
      ∷ found (some 10)
      ∷ done true
      ∷ found none
      ∷ found (some 21)
      ∷ done true
      ∷ []
some_replies = refl

some_run :
    Leaves
      (build 5)
      (run (build 5) some_calls)
      (run_spec 10000 [] some_calls).0
      (run_spec 10000 [] some_calls).1
some_run = serve_in_order 5 some_calls some_calls-Allocates
