-- ===== src/Common/Tests.antt =====
-- Small and large entries, and the theorems at these inputs.
use Prim.Native.String.{len}
use ankaios.Prelude.{
  ℕ, ◌+◌, ◌≤◌, ◌<◌, ◌⊎◌, ◌&&◌, ltb, String, ◌≡◌, refl, List, [], ◌∷◌, ◌++◌, All, arith,
  if◌then◌else◌,
}
use ankaios.Common.MessageSize.{
  LogEntry, logs_max_size_bytes, prefix_of_bytes, info_entry, max_message_size, truncate_log_entry,
  split_entries, process_log_entries_response,
}
use ankaios.Common.Truncation.{AreSent}
use ankaios.Common.Splitting.{
  concat, concat-process_log_entries_response, HasFrames, process_log_entries_response-bounded,
}

abbrev entry : String → LogEntry
entry message = record { workload_name = "web"; message = message }

-- Sizes with two bytes around each message.
abbrev entry_len : LogEntry → ℕ
entry_len e = len e.message + 2

abbrev encoded_len : List LogEntry → ℕ
encoded_len [] = 0
encoded_len (e ∷ entries) = entry_len e + 2 + encoded_len entries

encoded_len_lem :
    (entries : List LogEntry) (e : LogEntry)
    → encoded_len (entries ++ e ∷ []) ≤ encoded_len entries + (entry_len e + 10)
encoded_len_lem [] e = omega arith
encoded_len_lem (x ∷ entries) e = omega (arith, encoded_len_lem entries e)

frames : HasFrames entry_len encoded_len
frames = (refl, encoded_len_lem)

abbrev entries : List LogEntry
entries = entry "started" ∷ entry "läuft" ∷ []

-- The second character takes the bytes two and three.
cuts_between_characters : prefix_of_bytes 2 "läuft" ≡ "l"
unfolding prefix_of_bytes
cuts_between_characters = refl

-- Sizes that make an entry with a message of forty bytes larger than 2 MB.
abbrev large_entry_len : LogEntry → ℕ
large_entry_len e =
    if ltb 30 (len e.message) && ltb (len e.message) 50 then len e.message + 2097117 else 0

abbrev total_len : List LogEntry → ℕ
total_len [] = 0
total_len (e ∷ entries) = large_entry_len e + 2 + total_len entries

abbrev large_entries : List LogEntry
large_entries =
    entry "started" ∷ entry "0123456789äbcdefghijklmnopqrstuvwxyzÄBC" ∷ entry "stopped" ∷ []

-- Thirteen bytes of the large message fit, of which one character takes two.
abbrev responses : List (List LogEntry)
responses =
    (entry "started" ∷ [])
    ∷ (entry "0123456789äb [truncated]"
        ∷ entry "The previous message was truncated due to exceeding the maximum 2 MB size."
        ∷ [])
    ∷ (entry "stopped" ∷ [])
    ∷ []

split_with_note : process_log_entries_response large_entry_len total_len large_entries ≡ responses
unfolding process_log_entries_response split_entries truncate_log_entry max_message_size info_entry
    prefix_of_bytes
split_with_note = refl

concat-process_log_entries_response_example :
    ((total_len large_entries ≤ 2097152)
      × (process_log_entries_response large_entry_len total_len large_entries ≡ large_entries ∷ []))
    ⊎ ((2097152 < total_len large_entries)
        × AreSent large_entry_len total_len large_entries
            (concat (process_log_entries_response large_entry_len total_len large_entries)))
concat-process_log_entries_response_example =
    concat-process_log_entries_response large_entry_len total_len large_entries

process_log_entries_response-bounded_example :
    All
      (λ r. encoded_len r ≤ logs_max_size_bytes + 10)
      (process_log_entries_response entry_len encoded_len entries)
process_log_entries_response-bounded_example =
    process_log_entries_response-bounded entry_len encoded_len frames entries
      (omega arith, (omega arith, tt))
