-- ===== src/Common/MessageSize.antt =====
-- The split of log responses by their size: common/src/message_size.rs. The sizes of encoded messages
-- are computed by the Protobuf library.
use Prim.Native.Char.{len_utf8}
use Prim.Native.String.{len, [] as ε, ◌∷◌ as ◌∷ₛ◌, ◌++◌ as ◌<>◌}
use ankaios.Prelude.{
  ℕ, ◌+◌, ◌-◌, ◌*◌, String, true, false, leb, ltb, List, [], ◌∷◌, ◌++◌, if◌then◌else◌,
}

pub record LogEntry : Type 0 where
  pub workload_name : String
  pub message : String

abbrev pub logs_max_size_bytes : ℕ
logs_max_size_bytes = 2 * 1024 * 1024

abbrev pub truncation_notice : String
truncation_notice = " [truncated]"

-- The longest prefix of at most `n` bytes that ends between two characters.
unfoldable pub prefix_of_bytes : ℕ → String → String
prefix_of_bytes n ε = ε
prefix_of_bytes n (c ∷ₛ s) =
    let rest = prefix_of_bytes (n - len_utf8 c) s in if leb (len_utf8 c) n then c ∷ₛ rest else ε

-- The sizes of one entry and of a response with a list of entries.
module _ (entry_len : LogEntry → ℕ) (encoded_len : List LogEntry → ℕ) where
  unfoldable pub info_entry : LogEntry → LogEntry
  info_entry entry = record {
    workload_name = entry.workload_name;
    message = "The previous message was truncated due to exceeding the maximum 2 MB size.";
  }

  -- The subtractions saturate at zero; an encoded entry is not shorter than its message.
  unfoldable pub max_message_size : LogEntry → ℕ
  max_message_size entry =
      logs_max_size_bytes
      - (entry_len entry - len entry.message)
      - len truncation_notice
      - entry_len (info_entry entry)
      - 10

  unfoldable pub truncate_log_entry : LogEntry → LogEntry
  truncate_log_entry entry =
      if ltb (max_message_size entry) (len entry.message)
      then record entry {
        message = prefix_of_bytes (max_message_size entry) entry.message <> truncation_notice;
      }
      else entry

  abbrev pub push_unless_empty : List LogEntry → List (List LogEntry) → List (List LogEntry)
  push_unless_empty [] rest = rest
  push_unless_empty (e ∷ current) rest = (e ∷ current) ∷ rest

  -- The loop over the entries, with the entries of the current response.
  unfoldable pub split_entries : List LogEntry → List LogEntry → List (List LogEntry)
  split_entries current [] = push_unless_empty current []
  split_entries current (entry ∷ entries) = elim (ltb logs_max_size_bytes (entry_len entry)) [
    | true ↦
        push_unless_empty current
          ((truncate_log_entry entry ∷ info_entry entry ∷ []) ∷ split_entries [] entries)
    | false ↦ elim (ltb logs_max_size_bytes (encoded_len current + entry_len entry)) [
      | true ↦ push_unless_empty current (split_entries (entry ∷ []) entries)
      | false ↦ split_entries (current ++ entry ∷ []) entries
    ]
  ]

  unfoldable pub process_log_entries_response : List LogEntry → List (List LogEntry)
  process_log_entries_response log_entries =
      if leb (encoded_len log_entries) logs_max_size_bytes
      then log_entries ∷ []
      else split_entries [] log_entries
