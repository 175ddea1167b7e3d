-- ===== src/Device/Sequence/Fresh.antt =====
-- No sequence number is handed out twice, not even after a restart that finds an older number on disk.
use tuya_ble_mesh.Prelude.{
  ℕ, zero, suc, ◌+◌, ◌^◌, ◌≤◌, ◌<◌, ◌≡◌, arith, max, Option, none, some, List, [], ◌∷◌,
}
use tuya_ble_mesh.Prelude.{All, ok}
use tuya_ble_mesh.Device.Sequence.{
  next_seq, next_seqs, SequenceStore, new_store, set_seq, merge_saved, load_network, load_legacy,
  load, save,
}

-- The store and the numbers that it handed out, the latest first.
pub record History : Type 0 where
  pub store : SequenceStore
  pub used : List ℕ

-- So many numbers from the first on, put before the others.
abbrev pub count_up : ℕ → ℕ → List ℕ → List ℕ
count_up first zero used = used
count_up first (suc n) used = (first + n) ∷ count_up first n used

-- What happens to the store. A restart finds the file, whose number is at most the margin behind.
pub data Step : History → History → Type 0 where
  takes :
      {h : History} (seq next : ℕ)
      → next_seq h.store.seq ≡ ok (seq, next)
      → Step h (record { store = set_seq next h.store; used = seq ∷ h.used })
  reserves :
      {h : History} (n first next : ℕ)
      → next_seqs n h.store.seq ≡ ok (first, next)
      → Step h (record { store = set_seq next h.store; used = count_up first n h.used })
  advances :
      {h : History} (seq : ℕ) → Step h (record { store = set_seq seq h.store; used = h.used })
  saves : {h : History} → Step h (record { store = save h.store; used = h.used })
  restarts :
      {h : History} (legacy : ℕ → Option ℕ) (entry : Option ℕ) (initial saved : ℕ)
      → h.store.saved ≡ some saved
      → h.store.seq ≤ saved + 100
      → Step h
          (record { store = load legacy entry (new_store initial (some saved)); used = h.used })

pub data Reach (a : History) : History → Type 0 where
  here : Reach a a
  onward : {b c : History} → Reach a b → Step b c → Reach a c

abbrev pub Below : ℕ → List ℕ → Type 0
Below n = All (λ m. m < n)

-- Each number above all that came before it.
abbrev pub Descending : List ℕ → Type 0
Descending [] = Unit {0}
Descending (n ∷ ns) = Below n ns × Descending ns

pub record Fresh (h : History) : Type 0 where
  pub below : Below h.store.seq h.used
  pub rising : Descending h.used
  pub in_range : Below (2 ^ 24) h.used

weaken : (m n : ℕ) (ns : List ℕ) → m ≤ n → Below m ns → Below n ns
weaken m n [] h b = tt
weaken m n (k ∷ ns) h (first, b) = (omega arith, weaken m n ns h b)

count_up-Below :
    (seq n bound : ℕ) (used : List ℕ)
    → seq + n ≤ bound
    → Below bound used
    → Below bound (count_up seq n used)
count_up-Below seq zero bound used h b = b
count_up-Below seq (suc n) bound used h b =
    (omega arith, count_up-Below seq n bound used (omega arith) b)

count_up-Descending :
    (seq n : ℕ) (used : List ℕ)
    → Below seq used
    → Descending used
    → Descending (count_up seq n used)
count_up-Descending seq zero used b d = d
count_up-Descending seq (suc n) used b d = (
  count_up-Below seq n (seq + n) used (omega arith) (weaken seq (seq + n) used (omega arith) b),
  count_up-Descending seq n used b d,
)

next_seq_ok :
    (seq n next : ℕ) → next_seq seq ≡ ok (n, next) → (n ≡ seq) × ((next ≡ seq + 1) × (seq < 2 ^ 24))
unfolding next_seq
next_seq_ok seq n next h = ground arith

next_seqs_ok :
    (count seq n next : ℕ)
    → next_seqs count seq ≡ ok (n, next)
    → (n ≡ seq) × ((next ≡ seq + count) × (seq + count < 2 ^ 24))
unfolding next_seqs
next_seqs_ok count seq n next h = ground arith

merge_saved-le : (o : Option ℕ) (store : SequenceStore) → store.seq ≤ (merge_saved o store).seq
unfolding merge_saved set_seq
merge_saved-le none store = omega arith
merge_saved-le (some seq) store = omega arith

-- A load takes the number at least to the margin above the one on disk.
pub load-le :
    (legacy : ℕ → Option ℕ) (entry : Option ℕ) (initial saved : ℕ)
    → saved + 100 ≤ (load legacy entry (new_store initial (some saved))).seq
unfolding load load_network load_legacy merge_saved set_seq new_store
load-le legacy none initial saved = omega arith
load-le legacy (some entry) initial saved =
    omega (arith, merge_saved-le (legacy entry) (load_network (new_store initial (some saved))))

Step-Fresh : {a b : History} → Step a b → Fresh a → Fresh b
unfolding set_seq save
Step-Fresh {a} (takes seq next e) f =
    let (same, (after, bound)) = next_seq_ok a.store.seq seq next e in
    record {
      below = (
        omega (arith, same, after),
        weaken a.store.seq (max a.store.seq next) a.used (omega arith) f.below,
      );
      rising = (rw same f.below, f.rising);
      in_range = (omega (arith, same, bound), f.in_range);
    }
Step-Fresh {a} (reserves n first next e) f =
    let (same, (after, bound)) = next_seqs_ok n a.store.seq first next e in
    record {
      below =
          count_up-Below first n (max a.store.seq next) a.used (omega arith)
            (weaken a.store.seq (max a.store.seq next) a.used (omega arith) f.below);
      rising = count_up-Descending first n a.used (rw same f.below) f.rising;
      in_range = count_up-Below first n (2 ^ 24) a.used (omega arith) f.in_range;
    }
Step-Fresh {a} (advances seq) f = record {
  below = weaken a.store.seq (max a.store.seq seq) a.used (omega arith) f.below;
  rising = f.rising;
  in_range = f.in_range;
}
Step-Fresh saves f = record { below = f.below; rising = f.rising; in_range = f.in_range }
Step-Fresh {a} (restarts legacy entry initial saved e h) f = record {
  below = weaken a.store.seq _ a.used (omega (arith, load-le legacy entry initial saved)) f.below;
  rising = f.rising;
  in_range = f.in_range;
}

Reach-Fresh : {a b : History} → Reach a b → Fresh a → Fresh b
Reach-Fresh here f = f
Reach-Fresh (onward run s) f = Step-Fresh s (Reach-Fresh run f)

-- Numbers taken one by one or in ranges, with saves, advances and restarts between them, where every
-- restart finds a number on disk that is at most 100 behind: each number handed out is above all
-- that were handed out before it, so none is used twice, and all are below 2^24.
pub sequence_numbers-Descending :
    (initial : ℕ) (saved : Option ℕ) (h : History)
    → Reach (record { store = new_store initial saved; used = [] }) h
    → Descending h.used × Below (2 ^ 24) h.used
unfolding new_store
sequence_numbers-Descending initial saved h run =
    let f = Reach-Fresh run (record { below = tt; rising = tt; in_range = tt }) in
    (f.rising, f.in_range)
