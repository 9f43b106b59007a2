-- ===== src/Config/Checks.antt =====
-- What a configuration that was loaded is known to hold.
use grpc_mesh_server.Prelude.{
  ◌≡◌, refl, ap, ◌∙◌, ◌⊎◌, inl, inr, Bool, true, false, some, arith, Str, is_empty, Bool-cases, ◌↔◌,
}
use grpc_mesh_server.Config.{
  Config, Reading, read, file_not_found, not_read, loaded, check_files, load_from_viper, load,
}

-- A certificate and its key are both configured, in files that exist, or neither is.
pub record IsPaired (exists : Str → Bool) (cfg : Config) : Type 0 where
  pub paired :
      ((is_empty cfg.listener.cert_file ≡ true) × (is_empty cfg.listener.key_file ≡ true))
      ⊎ ((is_empty cfg.listener.cert_file ≡ false)
          × (is_empty cfg.listener.key_file ≡ false)
          × (exists cfg.listener.cert_file ≡ true)
          × (exists cfg.listener.key_file ≡ true))

checked-IsPaired :
    (exists : Str → Bool) (values cfg : Config)
    → check_files exists values ≡ loaded cfg
    → (values ≡ cfg) × IsPaired exists values
unfolding check_files
checked-IsPaired exists values cfg e = elim (Bool-cases (is_empty values.listener.cert_file)) [
  | inl c ↦ elim (Bool-cases (is_empty values.listener.key_file)) [
    | inl k ↦ (ground (arith, e, c, k), record { paired = inl (c, k) })
    | inr k ↦ absurd (ground (arith, e, c, k))
  ]
  | inr c ↦ elim (Bool-cases (is_empty values.listener.key_file)) [
    | inl k ↦ absurd (ground (arith, e, c, k))
    | inr k ↦ elim (Bool-cases (exists values.listener.cert_file)) [
      | inl x ↦ elim (Bool-cases (exists values.listener.key_file)) [
        | inl y ↦ (ground (arith, e, c, k, x, y), record { paired = inr (c, k, x, y) })
        | inr y ↦ absurd (ground (arith, e, c, k, x, y))
      ]
      | inr x ↦ absurd (ground (arith, e, c, k, x))
    ]
  ]
]

-- The reading that `Load` goes on from: a file, or none where none was named.
pub data IsReadable (path : Str) : Reading → Type 0 where
  found : IsReadable path read
  unnamed : is_empty path ≡ true → IsReadable path file_not_found

readable :
    (exists : Str → Bool) (path : Str) (r : Reading) (values cfg : Config)
    → load exists path r (some values) ≡ loaded cfg
    → IsReadable path r × (check_files exists values ≡ loaded cfg)
unfolding load load_from_viper
readable exists path read values cfg e = (found, e)
readable exists path (not_read x) values cfg e = absurd (ground (arith, e))
readable exists path file_not_found values cfg e = elim (Bool-cases (is_empty path)) [
  | inl t ↦ (unnamed t, ground (arith, e, t))
  | inr f ↦ absurd (ground (arith, e, f))
]

reads_on :
    (exists : Str → Bool) (path : Str) (r : Reading) (values : Config)
    → IsReadable path r
    → load exists path r (some values) ≡ check_files exists values
unfolding load load_from_viper
reads_on exists path read values found = refl
reads_on exists path file_not_found values (unnamed t) = ground (arith, t)
reads_on exists path (not_read e) values i = elim i [ ]

paired-loads :
    (exists : Str → Bool) (cfg : Config) → IsPaired exists cfg → check_files exists cfg ≡ loaded cfg
unfolding check_files
paired-loads exists cfg p = go p.paired
  where
    go :
        ((is_empty cfg.listener.cert_file ≡ true) × (is_empty cfg.listener.key_file ≡ true))
          ⊎ ((is_empty cfg.listener.cert_file ≡ false)
              × (is_empty cfg.listener.key_file ≡ false)
              × (exists cfg.listener.cert_file ≡ true)
              × (exists cfg.listener.key_file ≡ true))
        → check_files exists cfg ≡ loaded cfg
    go (inl (c, k)) = ground (arith, c, k)
    go (inr (c, k, x, y)) = ground (arith, c, k, x, y)

-- `Load` returns a configuration exactly when a file was read, or none was named and none was found,
-- and the values name a certificate and its key together, in files that exist, or neither of them; it
-- returns these values as they are.
pub load_iff :
    (exists : Str → Bool) (path : Str) (r : Reading) (values cfg : Config)
    → (load exists path r (some values) ≡ loaded cfg)
      ↔ ((values ≡ cfg) × IsReadable path r × IsPaired exists values)
load_iff exists path r values cfg = (
  λ e.
      let (i, c) = readable exists path r values cfg e in
      let (s, p) = checked-IsPaired exists values cfg c in (s, i, p),
  λ q. reads_on exists path r values (q.1) ∙ paired-loads exists values (q.2) ∙ ap loaded (q.0),
)
