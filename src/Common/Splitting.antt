-- ===== src/Common/Splitting.antt =====
-- What the responses hold together, and how large they are: common/src/message_size.rs.
use ankaios.Prelude.{
  ℕ, ◌+◌, ◌≤◌, ◌<◌, ◌≡◌, ◌⊎◌, refl, ap, ◌∙◌, inl, inr, false, leb, ltb, List, [], ◌∷◌, ◌++◌, All,
  arith, Bool-cases, if◌then◌else◌,
}
use ankaios.Common.Truncation.{AreSent, all_sent, as_it_is, with_note-AreSent}
use ankaios.Common.MessageSize.{
  LogEntry, logs_max_size_bytes, info_entry, truncate_log_entry, push_unless_empty, split_entries,
  process_log_entries_response,
}

abbrev pub concat : List (List LogEntry) → List LogEntry
concat [] = []
concat (xs ∷ xss) = xs ++ concat xss

snoc_lem :
    (xs : List LogEntry) (e : LogEntry) (zs : List LogEntry) → (xs ++ e ∷ []) ++ zs ≡ xs ++ (e ∷ zs)
snoc_lem [] e zs = refl
snoc_lem (x ∷ xs) e zs = ap (λ (l : List LogEntry). x ∷ l) (snoc_lem xs e zs)

append_nil : (xs : List LogEntry) → xs ++ [] ≡ xs
append_nil [] = refl
append_nil (x ∷ xs) = ap (λ (l : List LogEntry). x ∷ l) (append_nil xs)

module _ (entry_len : LogEntry → ℕ) (encoded_len : List LogEntry → ℕ) where
  -- An entry alone, or truncated and with the note on it.
  abbrev pub sent_entry : LogEntry → List LogEntry
  sent_entry e =
      if ltb logs_max_size_bytes (entry_len e)
      then truncate_log_entry entry_len encoded_len e ∷ info_entry entry_len encoded_len e ∷ []
      else e ∷ []

  abbrev pub sent_entries : List LogEntry → List LogEntry
  sent_entries [] = []
  sent_entries (e ∷ entries) = sent_entry e ++ sent_entries entries

  concat-push :
      (xs : List LogEntry) (xss : List (List LogEntry))
      → concat (push_unless_empty entry_len encoded_len xs xss) ≡ xs ++ concat xss
  concat-push [] xss = refl
  concat-push (x ∷ xs) xss = refl

  concat-split_entries :
      (entries current : List LogEntry)
      → concat (split_entries entry_len encoded_len current entries)
        ≡ current ++ sent_entries entries
  unfolding split_entries
  concat-split_entries [] current = concat-push current []
  concat-split_entries (e ∷ entries) current =
      elim (Bool-cases (ltb logs_max_size_bytes (entry_len e))) [
        | inl h ↦
            rw (h, split_entries)
              (concat-push current (
                  (truncate_log_entry entry_len encoded_len e
                    ∷ info_entry entry_len encoded_len e
                    ∷ [])
                  ∷ split_entries entry_len encoded_len [] entries)
                ∙ ap
                    (λ (l : List LogEntry).
                      current
                      ++ truncate_log_entry entry_len encoded_len e
                        ∷ info_entry entry_len encoded_len e
                        ∷ l)
                    (concat-split_entries entries []))
        | inr h ↦ elim (Bool-cases (ltb logs_max_size_bytes (encoded_len current + entry_len e))) [
          | inl k ↦
              rw (h, k, split_entries)
                (concat-push current (split_entries entry_len encoded_len (e ∷ []) entries)
                  ∙ ap (λ (l : List LogEntry). current ++ l)
                      (concat-split_entries entries (e ∷ [])))
          | inr k ↦
              rw (h, k, split_entries)
                (concat-split_entries entries (current ++ e ∷ [])
                  ∙ snoc_lem current e (sent_entries entries))
        ]
      ]

  sent_entries-AreSent :
      (entries : List LogEntry) → AreSent entry_len encoded_len entries (sent_entries entries)
  sent_entries-AreSent [] = all_sent
  sent_entries-AreSent (e ∷ entries) = elim (Bool-cases (ltb logs_max_size_bytes (entry_len e))) [
    | inl h ↦ rw h (
        with_note-AreSent entry_len encoded_len e entries (sent_entries entries) (ground (arith, h))
          (sent_entries-AreSent entries))
    | inr h ↦ rw h (
        as_it_is e entries (sent_entries entries) (ground (arith, h))
          (sent_entries-AreSent entries))
  ]

  -- A response of at most 2 MB is sent as it is. Otherwise the responses together hold its entries in their order:
  -- an entry of at most 2 MB as it is, and a larger one with a note for its workload behind it. The message of a
  -- larger one, unless it is empty, is cut between two characters and ends with the notice; what is kept of it fits
  -- with everything else into 2 MB, unless it is nothing, and one more character would not fit.
  pub concat-process_log_entries_response :
      (entries : List LogEntry)
      → ((encoded_len entries ≤ 2097152)
          × (process_log_entries_response entry_len encoded_len entries ≡ entries ∷ []))
        ⊎ ((2097152 < encoded_len entries)
            × AreSent entry_len encoded_len entries
                (concat (process_log_entries_response entry_len encoded_len entries)))
  unfolding process_log_entries_response
  concat-process_log_entries_response entries =
      elim (Bool-cases (leb (encoded_len entries) logs_max_size_bytes)) [
        | inl e ↦ inl (ground (arith, e), rw e refl)
        | inr e ↦ inr (
          ground (arith, e),
          rw (e, concat-split_entries entries []) (sent_entries-AreSent entries),
        )
      ]

-- What Protobuf promises of the sizes: an empty response has no bytes, and an entry that is appended adds
-- its own bytes, its tag and its length, which is written in at most 9 bytes.
abbrev pub HasFrames : (LogEntry → ℕ) → (List LogEntry → ℕ) → Type 0
HasFrames entry_len encoded_len =
    (encoded_len [] ≡ 0)
    × ((entries : List LogEntry) (e : LogEntry)
        → encoded_len (entries ++ e ∷ []) ≤ encoded_len entries + (entry_len e + 10))

module _ (entry_len : LogEntry → ℕ) (encoded_len : List LogEntry → ℕ)
    (frames : HasFrames entry_len encoded_len) where
  abbrev Fits : List LogEntry → Type 0
  Fits r = encoded_len r ≤ logs_max_size_bytes + 10

  push-All :
      (current : List LogEntry) (rest : List (List LogEntry))
      → Fits current
      → All Fits rest
      → All Fits (push_unless_empty entry_len encoded_len current rest)
  push-All [] rest h k = k
  push-All (e ∷ current) rest h k = (h, k)

  split_entries-All :
      (entries current : List LogEntry)
      → All (λ e. entry_len e ≤ logs_max_size_bytes) entries
      → Fits current
      → All Fits (split_entries entry_len encoded_len current entries)
  unfolding split_entries
  split_entries-All [] current k h = push-All current [] h tt
  split_entries-All (e ∷ entries) current (s, k) h =
      let f : ltb logs_max_size_bytes (entry_len e) ≡ false = ground (arith, s) in
      elim (Bool-cases (ltb logs_max_size_bytes (encoded_len current + entry_len e))) [
        | inl l ↦
            rw (f, l, split_entries)
              (push-All current (split_entries entry_len encoded_len (e ∷ []) entries) h
                (split_entries-All entries (e ∷ []) k (omega (arith, s, frames.0, frames.1 [] e))))
        | inr l ↦
            let b : encoded_len current + entry_len e ≤ logs_max_size_bytes = ground (arith, l) in
            rw (f, l, split_entries)
              (split_entries-All entries (current ++ e ∷ []) k
                (omega (arith, b, frames.1 current e)))
      ]

  -- If no single entry is larger than 2 MB, each response has at most 2 MB and 10 bytes.
  pub process_log_entries_response-bounded :
      (entries : List LogEntry)
      → All (λ e. entry_len e ≤ logs_max_size_bytes) entries
      → All
          (λ r. encoded_len r ≤ logs_max_size_bytes + 10)
          (process_log_entries_response entry_len encoded_len entries)
  unfolding process_log_entries_response
  process_log_entries_response-bounded entries k =
      elim (Bool-cases (leb (encoded_len entries) logs_max_size_bytes)) [
        | inl e ↦
            let b : encoded_len entries ≤ logs_max_size_bytes + 10 = ground (arith, e) in
            rw e (b, tt)
        | inr e ↦ rw e (split_entries-All entries [] k (omega (arith, frames.0)))
      ]
