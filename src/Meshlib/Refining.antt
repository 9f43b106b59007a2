-- ===== src/Meshlib/Refining.antt =====
-- The string handles and the errors against the table that they promise to be.
use grpc_mesh_server.Prelude.{
  ℕ, ◌+◌, ◌^◌, ◌<◌, ◌≤◌, ◌≡◌, ◌≢◌, refl, ◌∙◌, ap, false, List, [], ◌∷◌, some, arith, Str, nat_eq,
  length,
}
use grpc_mesh_server.Map.{Map, lookup}
use grpc_mesh_server.Meshlib.Store.{Strings, no_strings, str_data, last_error}
use grpc_mesh_server.Meshlib.Table.{
  Table, empty, Op, registers, releases, reads, fails, asks, handle, text, step, run, at_pointer,
  perform, run_strings,
}
use grpc_mesh_server.Meshlib.Owning.{Owner, of_string, of_thread, text_at}
use grpc_mesh_server.Meshlib.Holding.{heap_of, pointers_of, promised, IsHeld, IsAllocator, at_text}
use grpc_mesh_server.Meshlib.Releasing.{release-IsHeld}
use grpc_mesh_server.Meshlib.Writing.{register-IsHeld, fail-IsHeld}

module _ (malloc : Map ℕ Str → ℕ) (law : IsAllocator malloc) where
  perform-IsHeld :
      (st : Strings) (t : Table) (op : Op)
      → IsHeld st t
      → t.issued + 1 < 2 ^ 64
      → IsHeld (perform malloc st op).0 (step t op).0 × ((perform malloc st op).1 ≡ (step t op).1)
  unfolding perform str_data last_error at_pointer
  perform-IsHeld st t (registers s) i lt =
      let (h, n) = register-IsHeld malloc law st t s i lt in (h, ap handle n)
  perform-IsHeld st t (releases id) i lt = (release-IsHeld st t id i, refl)
  perform-IsHeld st t (reads id) i lt =
      (i, ap text (at_text st (lookup id st.live_strs) ∙ i.texts (of_string id)))
  perform-IsHeld st t (fails thread s) i lt = (fail-IsHeld malloc law st t thread s i, refl)
  perform-IsHeld st t (asks thread) i lt =
      (i, ap text (at_text st (lookup thread st.errors) ∙ i.texts (of_thread thread)))

  no_strings-IsHeld : IsHeld no_strings empty
  unfolding no_strings lookup
  no_strings-IsHeld = record {
    sound = refl;
    owned = record {
      allocated = λ o a e. absurd (nowhere o a e);
      apart = λ o w a e f. absurd (nowhere o a e);
    };
    counted = refl;
    texts = λ o. silent o;
  }
    where
      nowhere : (o : Owner) (a : ℕ) → pointers_of no_strings o ≢ some a
      nowhere (of_string id) a e = ground (arith, e)
      nowhere (of_thread t) a e = ground (arith, e)

      silent :
          (o : Owner) → text_at (heap_of no_strings) (pointers_of no_strings o) ≡ promised empty o
      silent (of_string id) = refl
      silent (of_thread t) = refl

  issued_step : (t : Table) (op : Op) → (step t op).0.issued ≤ t.issued + 1
  issued_step t (registers s) = omega arith
  issued_step t (releases id) = omega arith
  issued_step t (reads id) = omega arith
  issued_step t (fails thread s) = omega arith
  issued_step t (asks thread) = omega arith

  run-IsHeld :
      (st : Strings) (t : Table) (ops : List Op)
      → IsHeld st t
      → t.issued + length ops < 2 ^ 64
      → ((run_strings malloc st ops).1 ≡ run t ops)
        × ((run_strings malloc st ops).0.faulted ≡ false)
  unfolding run_strings
  run-IsHeld st t [] i lt = (refl, i.sound)
  run-IsHeld st t (op ∷ ops) i lt =
      let (j, e) = perform-IsHeld st t op i (omega (arith, lt)) in
      let (q, f) =
        run-IsHeld (perform malloc st op).0 (step t op).0 ops j
          (omega (arith, lt, issued_step t op)) in
      (
        ap (λ x. x ∷ (run_strings malloc (perform malloc st op).0 ops).1) e
            ∙ ap (λ x. (step t op).1 ∷ x) q,
        f,
      )

  -- Whatever is registered, released, read, reported and asked for, in whatever order, fewer than
  -- 2 ^ 64 times in all, and wherever the allocator puts the strings, a caller of the library sees what
  -- it would see of the table: handles are 1, 2, 3 and so on, a handle reads its own string until it is
  -- released, a second release changes nothing, and each thread reads its own last error. No C string
  -- is freed that is not allocated.
  pub strings_refine :
      (ops : List Op)
      → length ops < 2 ^ 64
      → ((run_strings malloc no_strings ops).1 ≡ run empty ops)
        × ((run_strings malloc no_strings ops).0.faulted ≡ false)
  strings_refine ops lt = run-IsHeld no_strings empty ops no_strings-IsHeld (omega (arith, lt))
