-- ===== src/Common/Truncation.antt =====
-- How an entry is truncated: `truncate_log_entry` of common/src/message_size.rs.
use Prim.Native.Char.{Char, len_utf8}
use Prim.Native.String.{len, [] as ε, ◌∷◌ as ◌∷ₛ◌, ◌++◌ as ◌<>◌}
use Prim.Native.String.append
use Prim.Native.String.len as len_clauses
use text.Mathlib.TextPositions.{len_utf8-pos}
use ankaios.Prelude.{
  ℕ, ◌+◌, ◌-◌, ◌≤◌, ◌<◌, String, true, false, leb, ltb, ◌≡◌, ◌⊎◌, refl, sym, ap, ◌∙◌, inl, inr,
  arith, Bool-cases, List, [], ◌∷◌,
}
use ankaios.Common.MessageSize.{
  LogEntry, prefix_of_bytes, info_entry, max_message_size, truncate_log_entry,
}

-- The longest prefix of whole characters that has at most `n` bytes is followed by a character.
abbrev IsCutAt : ℕ → String → String → Type 0
IsCutAt n s kept =
    (c : Char) × (rest : String) × (s ≡ kept <> (c ∷ₛ rest))
    × (len kept ≤ n)
    × (n < len kept + len_utf8 c)

prefix-IsCutAt : (n : ℕ) (s : String) → n < len s → IsCutAt n s (prefix_of_bytes n s)
unfolding prefix_of_bytes
prefix-IsCutAt n ε h = absurd (omega (arith, h))
prefix-IsCutAt n (c ∷ₛ s) h = elim (Bool-cases (leb (len_utf8 c) n)) [
  | inl e ↦ rw e (
      let fits : len_utf8 c ≤ n = ground (arith, e) in
      let size : len (c ∷ₛ s) ≡ len_utf8 c + len s = len_clauses.cons c s in
      let kept = prefix_of_bytes (n - len_utf8 c) s in
      let kept_size : len (c ∷ₛ kept) ≡ len_utf8 c + len kept = len_clauses.cons c kept in
      let (d, rest, same, short, more) =
        prefix-IsCutAt (n - len_utf8 c) s (omega (arith, fits, size, h)) in
      (
        d,
        rest,
        ap (λ (t : String). c ∷ₛ t) same ∙ sym (append.cons c kept (d ∷ₛ rest)),
        omega (arith, kept_size, short, fits),
        omega (arith, kept_size, more, fits),
      ))
  | inr e ↦ rw e (
      let large : n < len_utf8 c = ground (arith, e) in
      (c, s, sym (append.nil (c ∷ₛ s)), omega arith, omega (arith, large)))
]

module _ (entry_len : LogEntry → ℕ) (encoded_len : List LogEntry → ℕ) where
  -- The bytes of the response without those of the kept part of the message: what the entry has around
  -- its message, the notice, the note, and 10 for the frames of the two entries.
  abbrev pub other_bytes : LogEntry → LogEntry → ℕ
  other_bytes e note = (entry_len e - len e.message) + 12 + entry_len note + 10

  -- The entry tells for the same workload that the message before it was truncated.
  abbrev pub IsNote : LogEntry → LogEntry → Type 0
  IsNote e note =
      (note.workload_name ≡ e.workload_name)
      × (note.message
          ≡ "The previous message was truncated due to exceeding the maximum 2 MB size.")

  -- The message is cut before a character and has the notice in place of the rest. What is kept fits into 2
  -- MB, unless it is nothing, and with the next character it would not fit.
  abbrev pub IsTruncated : LogEntry → LogEntry → LogEntry → Type 0
  IsTruncated e cut note =
      (cut.workload_name ≡ e.workload_name)
      × (kept : String) × (c : Char) × (rest : String) × (e.message ≡ kept <> (c ∷ₛ rest))
      × (cut.message ≡ kept <> " [truncated]")
      × ((kept ≡ "") ⊎ (len kept + other_bytes e note ≤ 2097152))
      × (2097152 < len kept + len_utf8 c + other_bytes e note)

  fits_or_empty :
      (kept : String) (max other : ℕ)
      → max ≡ 2097152 - other
      → len kept ≤ max
      → (kept ≡ "") ⊎ (len kept + other ≤ 2097152)
  fits_or_empty ε max other e h = inl refl
  fits_or_empty (c ∷ₛ kept) max other e h =
      let (k, pos) = len_utf8-pos c in inr (omega (arith, e, h, pos, len_clauses.cons c kept))

  max_lem :
      (e : LogEntry)
      → max_message_size entry_len encoded_len e
        ≡ 2097152 - other_bytes e (info_entry entry_len encoded_len e)
  unfolding max_message_size
  max_lem e = omega arith

  oversize_lem :
      (e : LogEntry) (c : Char) (s : String)
      → e.message ≡ (c ∷ₛ s)
      → 2097152 < entry_len e
      → max_message_size entry_len encoded_len e < len e.message
  oversize_lem e c s same large =
      let (k, pos) = len_utf8-pos c in
      let size : len e.message ≡ len_utf8 c + len s =
        ap (λ (t : String). len t) same ∙ len_clauses.cons c s in
      omega (arith, large, pos, size, max_lem e)

  info_entry-IsNote : (e : LogEntry) → IsNote e (info_entry entry_len encoded_len e)
  unfolding info_entry
  info_entry-IsNote e = (refl, refl)

  pub truncate-IsTruncated :
      (e : LogEntry) (c : Char) (s : String)
      → e.message ≡ (c ∷ₛ s)
      → 2097152 < entry_len e
      → IsTruncated e
          (truncate_log_entry entry_len encoded_len e)
          (info_entry entry_len encoded_len e)
  unfolding truncate_log_entry
  truncate-IsTruncated e c s same large =
      let max = max_message_size entry_len encoded_len e in
      let longer = oversize_lem e c s same large in
      let cuts : ltb max (len e.message) ≡ true = ground (arith, longer) in
      let (d, rest, parts, short, more) = prefix-IsCutAt max e.message longer in
      rw (truncate_log_entry, cuts)
        (
          refl,
          prefix_of_bytes max e.message,
          d,
          rest,
          parts,
          refl,
          fits_or_empty (prefix_of_bytes max e.message) max _ (max_lem e) short,
          omega (arith, more, max_lem e),
        )

  pub truncate_empty :
      (e : LogEntry) → e.message ≡ "" → truncate_log_entry entry_len encoded_len e ≡ e
  unfolding truncate_log_entry
  truncate_empty e same =
      let size : len e.message ≡ 0 = ap (λ (t : String). len t) same in
      let keeps : ltb (max_message_size entry_len encoded_len e) (len e.message) ≡ false =
        ground (arith, size) in
      rw (truncate_log_entry, keeps) refl

  -- An entry of more than 2 MB is cut, unless its message is empty, and the note follows it. Any other
  -- entry is sent as it is.
  pub data AreSent : List LogEntry → List LogEntry → Type 0 where
    all_sent : AreSent [] []
    as_it_is :
        (e : LogEntry) (entries sent : List LogEntry)
        → entry_len e ≤ 2097152
        → AreSent entries sent
        → AreSent (e ∷ entries) (e ∷ sent)
    with_note :
        (e cut note : LogEntry) (entries sent : List LogEntry)
        → 2097152 < entry_len e
        → ((e.message ≡ "") × (cut ≡ e)) ⊎ IsTruncated e cut note
        → IsNote e note
        → AreSent entries sent
        → AreSent (e ∷ entries) (cut ∷ (note ∷ sent))

  cut_or_empty :
      (e : LogEntry) (message : String)
      → e.message ≡ message
      → 2097152 < entry_len e
      → ((e.message ≡ "") × (truncate_log_entry entry_len encoded_len e ≡ e))
        ⊎ IsTruncated e
            (truncate_log_entry entry_len encoded_len e)
            (info_entry entry_len encoded_len e)
  cut_or_empty e ε same large = inl (same, truncate_empty e same)
  cut_or_empty e (c ∷ₛ message) same large = inr (truncate-IsTruncated e c message same large)

  pub with_note-AreSent :
      (e : LogEntry) (entries sent : List LogEntry)
      → 2097152 < entry_len e
      → AreSent entries sent
      → AreSent
          (e ∷ entries)
          (truncate_log_entry entry_len encoded_len e ∷ (info_entry entry_len encoded_len e ∷ sent))
  with_note-AreSent e entries sent large h =
      with_note e (truncate_log_entry entry_len encoded_len e) (info_entry entry_len encoded_len e)
        entries sent large (cut_or_empty e e.message refl large) (info_entry-IsNote e) h
