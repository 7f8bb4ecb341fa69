-- ===== src/Journal/Written.antt =====
-- The journals that calls of src/journal.cpp lead to from an empty one, and what a crash between or
-- within the writes leaves to be opened. One pair of seeds signs all checkpoints.
use tradep2p.Base.{ℕ, ◌≡◌, inl, refl, List, arith, length, some, ok}
use tradep2p.Crypto.{Primitives, IsSound}
use tradep2p.Protocol.Wire.Bytes.{IsU64, replicate-IsArray}
use tradep2p.Journal.Types.{JournalEntryFields}
use tradep2p.Journal.RoundTrip.{FieldsInRange}
use tradep2p.Journal.Store.{Journal, empty_journal, stamped, append, checkpoint, checkpoint_mldsa65}
use tradep2p.Journal.Replay.{Keys, open_journal}
use tradep2p.Journal.Consistent.{Consistent, open_journal-Consistent}
use tradep2p.Journal.Reopen.{
  append_stamped-Consistent, checkpoint-Consistent, checkpoint_mldsa65-Consistent,
}

module _ (c : Primitives) (seed seed_mldsa65 : List ℕ) where
  abbrev pub own_keys : Keys
  own_keys = record {
    ed25519 = c.ed25519_public seed;
    mldsa65 = some (c.mldsa65_public seed_mldsa65);
  }

  -- The journals written from an empty one: the number of entries and the clock fit 64 bits, and
  -- the fields are values of their types.
  pub data Written : Journal → Type 0 where
    created : Written empty_journal
    appended :
        (now : ℕ) (fields : JournalEntryFields) (j t : Journal)
        → Written j
        → IsU64 (length j.entries)
        → FieldsInRange (stamped c now fields)
        → append c now fields j ≡ ok t
        → Written t
    checkpointed :
        (now : ℕ) (j t : Journal)
        → Written j
        → IsU64 now
        → checkpoint c seed now j ≡ ok t
        → Written t
    checkpointed_mldsa65 :
        (now : ℕ) (j t : Journal)
        → Written j
        → IsU64 now
        → checkpoint_mldsa65 c seed_mldsa65 now j ≡ ok t
        → Written t

  Consistent-empty_journal : Consistent c own_keys empty_journal
  Consistent-empty_journal = record {
    replays = λ more. refl;
    chain_head = replicate-IsArray 32 0 (omega arith);
    small = omega arith;
    last = λ e p. cc;
    checkpointed = λ p. cc;
    head = inl refl;
  }

  pub Written-Consistent : (j : Journal) → IsSound c → Written j → Consistent c own_keys j
  unfolding append
  Written-Consistent j sound created = Consistent-empty_journal
  Written-Consistent _ sound (appended now fields j t w i r e) =
      append_stamped-Consistent c own_keys (stamped c now fields) j sound i r
        (Written-Consistent j sound w) e
  Written-Consistent _ sound (checkpointed now j t w n e) =
      checkpoint-Consistent c own_keys seed now j sound refl n (Written-Consistent j sound w) e
  Written-Consistent _ sound (checkpointed_mldsa65 now j t w n e) =
      checkpoint_mldsa65-Consistent c own_keys seed_mldsa65 now j sound refl n
        (Written-Consistent j sound w) e

  -- If the digest has 32 bytes, the signatures have the length of their scheme and verify, then
  -- the two files of any journal that is written by calls of append, checkpoint and
  -- checkpoint_mldsa65 from an empty one, with entries whose fields are values of their types
  -- and indices and clocks of 64 bits, open to that journal.
  pub open_journal-Written :
      (j : Journal) → IsSound c → Written j → open_journal c own_keys j.log j.head ≡ ok j
  open_journal-Written j sound w =
      open_journal-Consistent c own_keys j (Written-Consistent j sound w)
