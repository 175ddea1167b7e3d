-- ===== src/Device/Sequence.antt =====
-- Sequence numbers: `_next_seq` and `_next_seqs` of `sig_mesh_device.py`, and the store of
-- `ha_sequence.py` with what it keeps on disk. What an entry's own older store holds is a parameter.
pub mod Fresh
use tuya_ble_mesh.Prelude.{
  ℕ, ◌+◌, Bool, true, false, not, ◌||◌, ◌&&◌, Option, none, some, List, [], ◌∷◌, max,
}
use tuya_ble_mesh.Prelude.{
  ltb, ◌==◌, if◌then◌else◌, Result, ok, err, ◌>>=◌, ◌>>◌, raise_if, sig_mesh_error,
}

-- `_next_seq` on the number that the store holds: the number for the caller, and the one stored.
unfoldable pub next_seq : ℕ → Result (ℕ × ℕ)
next_seq seq = do raise_if (ltb 0xffffff seq) sig_mesh_error; ok (seq, seq + 1)

unfoldable pub next_seqs : ℕ → ℕ → Result (ℕ × ℕ)
next_seqs n seq = do
  raise_if (ltb 0xffffff seq || ltb 0xffffff (seq + n)) sig_mesh_error
  ok (seq, seq + n)

-- `HASequenceStore`, and the number in its file.
pub record SequenceStore : Type 0 where
  pub seq : ℕ
  pub network_loaded : Bool
  pub loaded_legacy_entries : List ℕ
  pub saved : Option ℕ

-- `HASequenceStore.__init__`, on the file as it is.
unfoldable pub new_store : ℕ → Option ℕ → SequenceStore
new_store initial_sequence saved = record {
  seq = initial_sequence;
  network_loaded = false;
  loaded_legacy_entries = [];
  saved = saved;
}

unfoldable pub set_seq : ℕ → SequenceStore → SequenceStore
set_seq seq store = record store { seq = max store.seq seq }

-- `if data is not None and "seq" in data: self.set_seq(data["seq"] + SEQ_SAFETY_MARGIN)`
unfoldable pub merge_saved : Option ℕ → SequenceStore → SequenceStore
merge_saved none store = store
merge_saved (some seq) store = set_seq (seq + 100) store

unfoldable pub load_network : SequenceStore → SequenceStore
load_network store =
    let loaded = record (merge_saved store.saved store) { network_loaded = true } in
    if store.network_loaded then store else loaded

abbrev pub is_member : ℕ → List ℕ → Bool
is_member n [] = false
is_member n (m ∷ ms) = n == m || is_member n ms

unfoldable pub load_legacy : (ℕ → Option ℕ) → ℕ → SequenceStore → SequenceStore
load_legacy legacy entry store =
    let merged = merge_saved (legacy entry) store in
    if is_member entry store.loaded_legacy_entries
    then store
    else record merged { loaded_legacy_entries = entry ∷ store.loaded_legacy_entries }

-- `async_load`
unfoldable pub load : (ℕ → Option ℕ) → Option ℕ → SequenceStore → SequenceStore
load legacy none store = load_network store
load legacy (some entry) store = load_legacy legacy entry (load_network store)

-- `async_save`
unfoldable pub save : SequenceStore → SequenceStore
save store = record store { saved = some store.seq }
