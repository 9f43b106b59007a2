-- ===== src/Meshlib/Writing.antt =====
-- New strings: a string handle, and the error of a thread.
use grpc_mesh_server.Prelude.{
  ℕ, ◌+◌, ◌%◌, ◌^◌, ◌<◌, ◌≡◌, refl, sym, ◌∙◌, ap, inl, inr, Option, none, some, arith, Str, ==_iff,
  if◌then◌else◌, nat_eq, Bool-cases,
}
use mathlib.Core.Path.{subst}
use grpc_mesh_server.Map.{
  Map, lookup, insert, delete, lookup-insert, lookup-insert_self, lookup-delete,
}
use grpc_mesh_server.Meshlib.Store.{Strings, free_old, c_string, register_c_string, set_err}
use grpc_mesh_server.Meshlib.Table.{Table, registers, fails, step}
use grpc_mesh_server.Meshlib.Owning.{
  of_string, of_thread, same, text_at, Pointers, Gives, allocate, take_over, give_up,
}
use grpc_mesh_server.Meshlib.Holding.{
  heap_of, pointers_of, IsHeld, IsAllocator, again, string_set, error_set, registered_promise,
  failed_promise,
}
use grpc_mesh_server.Meshlib.Releasing.{free_there}

module _ (malloc : Map ℕ Str → ℕ) (law : IsAllocator malloc) where
  pub register-IsHeld :
      (st : Strings) (t : Table) (s : Str)
      → IsHeld st t
      → t.issued + 1 < 2 ^ 64
      → IsHeld (register_c_string malloc st s).0 (step t (registers s)).0
        × ((register_c_string malloc st s).1 ≡ t.issued + 1)
  unfolding register_c_string
  register-IsHeld st t s i lt =
      let a = malloc st.heap in
      let id = (st.next_str_id + 1) % 2 ^ 64 in
      let st' = (register_c_string malloc st s).0 in
      let n : id ≡ t.issued + 1 = omega (arith, i.counted, lt) in
      let (o, unowned, old) =
        allocate (heap_of st) (heap_of st') (pointers_of st) a s (law st.heap)
          (λ b. lookup-insert a b s st.heap) i.owned in
      let g : Gives (heap_of st') (heap_of st') (pointers_of st) (pointers_of st') (of_string id)
          (some s) =
        take_over (heap_of st') (pointers_of st) (pointers_of st') (of_string id) a s
          (lookup-insert_self a s st.heap) unowned (string_set st.live_strs st.errors id a) o in
      (
        record {
          sound = i.sound;
          owned = g.owned;
          counted = n;
          texts = λ w. g.texts w ∙ registered_promise t _ id s w n (old w ∙ i.texts w);
        },
        n,
      )

module _ (malloc : Map ℕ Str → ℕ) (law : IsAllocator malloc) where
  -- An error on a thread that has none, or on one whose earlier error is freed.
  pub fail-IsHeld :
      (st : Strings) (t : Table) (thread : ℕ) (s : Str)
      → IsHeld st t
      → IsHeld (set_err malloc st thread s) (step t (fails thread s)).0
  unfolding set_err c_string
  fail-IsHeld st t thread s i = go (lookup thread st.errors) refl
    where
      a : ℕ
      a = malloc st.heap

      grown : Strings
      grown = record st { heap = insert a s st.heap }

      p : Pointers
      p = pointers_of st

      done : Strings → Strings
      done x = record x { errors = insert thread a x.errors }

      go :
          (o : Option ℕ)
          → lookup thread st.errors ≡ o
          → IsHeld (done (free_old grown o)) (step t (fails thread s)).0
      go none n =
          let (o, unowned, old) =
            allocate (heap_of st) (heap_of grown) p a s (law st.heap)
              (λ b. lookup-insert a b s st.heap) i.owned in
          let g : Gives (heap_of grown) (heap_of grown) p (pointers_of (done grown))
              (of_thread thread) (some s) =
            take_over (heap_of grown) p (pointers_of (done grown)) (of_thread thread) a s
              (lookup-insert_self a s st.heap) unowned (error_set st.live_strs st.errors thread a)
              o in
          record {
            sound = i.sound;
            owned = g.owned;
            counted = i.counted;
            texts = λ w. g.texts w ∙ failed_promise t _ thread s w (old w ∙ i.texts w);
          }
      go (some b) q =
          let (o, unowned, old) =
            allocate (heap_of st) (heap_of grown) p a s (law st.heap)
              (λ c. lookup-insert a c s st.heap) i.owned in
          let (u, r) = o.allocated (of_thread thread) b q in
          let shrunk : Strings = record grown { heap = delete b grown.heap } in
          let p1 : Pointers = λ w. if same (of_thread thread) w then none else p w in
          let g1 : Gives (heap_of grown) (heap_of shrunk) p p1 (of_thread thread) none =
            give_up (heap_of grown) (heap_of shrunk) p p1 (of_thread thread) b q
              (λ c. lookup-delete b c grown.heap) (λ w. refl) o in
          let there : heap_of shrunk a ≡ some s = ground (
            arith,
            lookup-delete b a grown.heap,
            lookup-insert_self a s st.heap,
            ==_iff b a,
            q,
            unowned (of_thread thread),
          ) in
          let g2 : Gives (heap_of shrunk) (heap_of shrunk) p1 (pointers_of (done shrunk))
              (of_thread thread) (some s) =
            take_over (heap_of shrunk) p1 (pointers_of (done shrunk)) (of_thread thread) a s there
              (λ w e. elim (Bool-cases (same (of_thread thread) w)) [
                | inl k ↦ absurd (ground (arith, e, k))
                | inr k ↦ unowned w (ground (arith, e, k))
              ])
              (λ w.
                error_set st.live_strs st.errors thread a w
                ∙ again (same (of_thread thread) w) (some a) none (p w))
              g1.owned in
          subst (λ x. IsHeld (done x) (step t (fails thread s)).0) (sym (free_there grown b u r))
            (record {
              sound = i.sound;
              owned = g2.owned;
              counted = i.counted;
              texts = λ w.
                  g2.texts w
                  ∙ ap (λ x. if same (of_thread thread) w then some s else x) (g1.texts w)
                  ∙ sym (
                      again (same (of_thread thread) w) (some s) none
                        (text_at (heap_of grown) (p w)))
                  ∙ failed_promise t _ thread s w (old w ∙ i.texts w);
            })
