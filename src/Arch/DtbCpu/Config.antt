-- ===== src/Arch/DtbCpu/Config.antt =====
-- `get_core_config` of src/arch/arm_common/dtb_cpu.rs on any memory.
use propeller_kernel.Prelude.{
  ℕ, ◌+◌, ◌*◌, ◌^◌, ◌≤◌, ◌<◌, ◌≡◌, refl, inl, inr, Bool, true, false, Bool-cases, List, [], ◌∷◌,
  ◌++◌, Run, ok, panic, out_of_fuel, le→leb, ◌==◌, if◌then◌else◌, length, length-append,
  take-length_append, arith,
}
use propeller_kernel.Prelude.Monad
use propeller_kernel.Prelude.Ends.{Ends, ok-Ends, >>=-Ends}
use propeller_kernel.Support.HashMap.{Table, clear}
use propeller_kernel.Support.HashMap
use propeller_kernel.Support.HashMap.Erase.{clear-length}
use propeller_kernel.Support.Hash.{hash_key}
use propeller_kernel.Support.Dtb.{DtbError}
use propeller_kernel.Support.Dtb.Parse.{Result, value, error, Parse}
use propeller_kernel.Support.Dtb.Names.{bytes_eq}
use propeller_kernel.Support.Dtb.Safety.{Safe}
use propeller_kernel.Support.Dtb.Safety
use propeller_kernel.Support.Dtb.Ending.{insert-Ends}
use propeller_kernel.Support.Dtb.New.{new-IsReader}
use propeller_kernel.Support.Dtb.Invariant.{Runs, returns, fails, panics}
use propeller_kernel.Arch.Cpu.{
  Core, CoreConfig, max_cores, core_map_size, reset, get_core_count, get_cores,
}
use propeller_kernel.Arch.Cpu.Cores.{IsCores}
use propeller_kernel.Arch.DtbMemory.{insert_all}
use propeller_kernel.Arch.DtbCpu.{build_string_map}
use propeller_kernel.Arch.DtbCpu.Scanner.{all_enabled, get_core_config}
use propeller_kernel.Arch.DtbCpu.Invariant.{IsConfig, scan-IsScanner}

get_cores-IsCores : (w : ℕ) (c : CoreConfig) {xs : List Core} → IsCores w c xs → get_cores c ≡ ok xs
unfolding get_cores
get_cores-IsCores w c {xs} v =
    rw (v.used, v.slots)
      (rw
        (
          le→leb (length xs) (length (xs ++ v.spare)) (omega (arith, length-append xs v.spare)),
          take-length_append xs v.spare (length xs) refl,
        )
        refl)

insert_all-Ends :
    {T : Type 0} (writes : List ℕ → List (List ℕ)) (map : Table (List ℕ) T)
    (entries : List (List ℕ × T))
    → Ends (insert_all writes map entries)
unfolding insert_all
insert_all-Ends writes map [] = ok-Ends map
insert_all-Ends writes map ((key, tag) ∷ rest) =
    >>=-Ends _ (insert-Ends (hash_key writes) map key tag)
      (λ (map', taken). insert_all-Ends writes map' rest)

-- The slots of the arrays, whatever they hold.
pub record HasSlots (w : ℕ) (c : CoreConfig) : Type 0 where
  pub cores : length c.cores ≡ max_cores w
  pub map : length c.id_map ≡ core_map_size w

reset-IsConfig :
    (w primary_id : ℕ) (c : CoreConfig)
    → HasSlots w c
    → (c' : CoreConfig) × (reset c ≡ ok c') × IsConfig w primary_id c'
unfolding reset
reset-IsConfig w primary_id c h =
    let (map, run, same) = clear-length c.id_map in
    (
      record c { core_count = 0; id_map = map },
      rw run refl,
      record {
        all = [];
        cores = record {
          spare = c.cores;
          slots = refl;
          size = omega (arith, h.cores);
          used = refl;
          map_size = rw same h.map;
        };
        first = tt;
      },
    )

-- The code ends. Unless it panics, the configuration is well formed; where the result is true, there is a
-- core, and each core has an enable method.
pub data Configures (w primary_id : ℕ) : Run (CoreConfig × Bool) → Type 0 where
  leaves :
      {c : CoreConfig} {found : Bool} (config : IsConfig w primary_id c)
      → (found ≡ true → (0 < length config.all) × (all_enabled config.all ≡ true))
      → Configures w primary_id (ok (c, found))
  stops : Configures w primary_id panic

module _ {w primary_id : ℕ} where
  Configures-bind :
      {A : Type 0} (code : Run A) {next : A → Run (CoreConfig × Bool)}
      → Ends code
      → ((a : A) → Configures w primary_id (next a))
      → Configures w primary_id (Monad.◌>>=◌ code next)
  Configures-bind (ok a) e k = k a
  Configures-bind panic e k = stops
  Configures-bind out_of_fuel e k = absurd (e refl)

  Configures-parse :
      {A : Type 0} {P : A → Type 0} {code : Parse A} (next : Result A → Run (CoreConfig × Bool))
      → Safe Unit P code
      → ((a : A) → P a → Configures w primary_id (next (value a)))
      → ((e : DtbError) → Configures w primary_id (next (error e)))
      → Configures w primary_id (Monad.◌>>=◌ code next)
  Configures-parse next (Safety.returns p) k f = k _ p
  Configures-parse next Safety.fails k f = f _
  Configures-parse next (Safety.panics m) k f = stops

  Configures-scan :
      {S A : Type 0} {I : S → Type 0} {P : A → Type 0} {out : Run (S × Result A)}
      (next : S × Result A → Run (CoreConfig × Bool))
      → Runs Unit I P out
      → ((s : S) (a : A) → I s → Configures w primary_id (next (s, value a)))
      → ((s : S) (e : DtbError) → I s → Configures w primary_id (next (s, error e)))
      → Configures w primary_id (Monad.◌>>=◌ out next)
  Configures-scan next (returns i p) k f = k _ _ i
  Configures-scan next (fails i) k f = f _ _ i
  Configures-scan next (panics m) k f = stops

module _ (w : ℕ) (hash : ℕ → ℕ) (writes : List ℕ → List (List ℕ))
    (small : (k : ℕ) → hash k < 2 ^ 32) (fits : 64 * 1024 * 1024 + 4 ≤ 2 ^ w) (memory : ℕ → ℕ)
    (bytes : (a : ℕ) → memory a < 256) where
  word : max_cores w < 2 ^ w
  word = elim (Bool-cases (w == 64)) [
    | inl wide ↦ rw wide (omega (arith, fits))
    | inr narrow ↦ rw narrow (omega (arith, fits))
  ]

  -- What the check at the end says of a configuration.
  checked :
      (primary_id : ℕ) (c : CoreConfig)
      → IsConfig w primary_id c
      → Configures w primary_id (
          if get_core_count c == 0
          then ok (c, false)
          else Monad.◌>>=◌ (get_cores c) (λ cores. ok (c, all_enabled cores)))
  unfolding get_core_count
  checked primary_id c i = elim (Bool-cases (c.core_count == 0)) [
    | inl none_found ↦ rw none_found (leaves i (λ e. absurd (cc e)))
    | inr some_found ↦
        rw (some_found, get_cores-IsCores w c i.cores)
          (leaves i (λ e. (ground (arith, some_found, i.cores.used), e)))
  ]

  -- With hashes of 32 bits, arrays of the sizes that the source gives them, words that hold the sizes of
  -- trees that are admitted, and whatever bytes the memory holds: reading the cores ends, in a result
  -- or a panic. Without a panic it leaves at most `MAX_CORES` cores, and the primary core, if it is one
  -- of them, at index zero. If the result is true, there is a core, and each core has an enable method.
  pub get_core_config-Configures :
      (config : CoreConfig) (primary_id blob : ℕ)
      → HasSlots w config
      → Configures w primary_id (get_core_config w hash writes primary_id memory config blob)
  unfolding get_core_config build_string_map
  get_core_config-Configures config primary_id blob slots =
      let (config', run, i) = reset-IsConfig w primary_id config slots in
      rw run (
        Configures-bind _ (insert_all-Ends writes (HashMap.new 31) _) (λ string_map.
          Configures-parse _ (new-IsReader memory blob w fits bytes)
            (λ r v.
              Configures-scan _
                (scan-IsScanner w hash writes small word r v tt primary_id _
                  (record { config = i; primary = refl }))
                (λ s u k. checked primary_id s.config k.config)
                (λ s e k. leaves k.config (λ e'. absurd (cc e'))))
            (λ e. leaves i (λ e'. absurd (cc e')))))
