-- ===== src/Messages/Protocol.antt =====
-- What `send_message` (jsockd_server/src/messages.c) makes of an answer, however it is cut into reads.
use jsockd.Prelude.{
  ℕ, ◌+◌, ◌-◌, ◌^◌, ◌≤◌, ◌<◌, ◌≡◌, ◌≢◌, refl, ap, sym, ◌∙◌, List, [], ◌∷◌, ◌++◌, Bool, true, false,
  not, ◌==◌, ◌||◌, if◌then◌else◌, Option, some, none, length, take, drop, splice, take-append,
  drop-append, drop-drop, length-append, arith,
}
use jsockd.CmdArgs.CString.{Str, same}
use jsockd.Time.{Timespec}
use jsockd.Messages.Answer.{
  Sep, is_sep, split_uuid, strncmp_same, sub_size, bad_json, bad_message, Sent, answered, failed,
  read_json, answer_of,
}
use jsockd.Messages.{message_text, Round, received, finish, send_message}
use jsockd.Messages.Arrive.{Arrives, Arrives-cons, receive-Arrives}
use jsockd.Messages.Format.{
  NoSep, NoZero, split_uuid-append, strncmp_same-append, strncmp_same-eq, not_internal_error,
}

module _ {V : Type 0} (sep : Sep) (parse_json : Str → ℕ → Option V) where
  -- What becomes of the parser's result.
  abbrev pub parsed : Option V → Sent V
  parsed none = failed bad_json
  parsed (some v) = answered v

  send_message-Arrives :
      {max_us : ℕ} {start : Timespec} (text : Str) {rounds : List Round}
      → Arrives sep max_us start text rounds
      → (size : ℕ) (uuid buf : Str) → length text < size
      → length buf ≡ size
      → (writes : Str → Bool) (message : Str) → writes (message_text uuid message) ≡ true
      → send_message sep parse_json size max_us start writes rounds uuid message buf
        ≡ some (answer_of sep parse_json uuid text)
  unfolding send_message finish
  send_message-Arrives text a size uuid buf h l writes message sent =
      let whole : take (length text) (splice buf 0 text) ≡ text =
        take-append text (drop (0 + length text) buf) in
      let some_read : (length text == 0) ≡ false = ground (arith, Arrives-cons sep _ _ a) in
      let none_yet : 0 + length text ≡ length text = omega arith in
      rw sent (
        ap (finish sep parse_json uuid) (
          receive-Arrives sep _ _ a size 0 false buf (omega arith) l
          ∙ ap (λ t. received false t (splice buf 0 text)) none_yet)
        ∙ rw (finish, some_read, whole) refl)

  module _ (uuid : Str) (separated : is_sep sep sep.socket_sep_char ≡ true)
      (one_word : NoSep sep uuid) where
    -- An answer as the protocol has it.
    abbrev pub response : Str → Str
    response json = uuid ++ (sep.socket_sep_char ∷ (json ++ (sep.socket_sep_char ∷ [])))

    answer_of-own :
        (rest : Str)
        → answer_of sep parse_json uuid (uuid ++ (sep.socket_sep_char ∷ rest))
          ≡ read_json sep parse_json rest
              (sub_size (length uuid + (1 + length rest)) (length uuid + 2))
    unfolding answer_of
    answer_of-own rest =
        let text : Str = uuid ++ (sep.socket_sep_char ∷ rest) in
        let n = length-append uuid (sep.socket_sep_char ∷ rest) in
        let n' : length text ≡ length uuid + (1 + length rest) = omega (arith, n) in
        let found : split_uuid sep text ≡ length uuid =
          split_uuid-append sep uuid rest sep.socket_sep_char one_word separated in
        let inside : (length uuid == length text) ≡ false = ground (arith, n) in
        let own : (length uuid == length uuid) ≡ true = ground arith in
        let behind : drop (length uuid + 1) text ≡ rest =
          sym (drop-drop 1 (length uuid) text)
          ∙ ap (drop 1) (drop-append uuid (sep.socket_sep_char ∷ rest)) in
        rw (found, inside, own, strncmp_same-append uuid (sep.socket_sep_char ∷ rest), behind)
          (ap (λ m. read_json sep parse_json rest (sub_size m (length uuid + 2))) n')

    answer_of-response :
        (json : Str)
        → length (response json) < 2 ^ 64
        → NoZero json
        → sep.socket_sep_char ≢ 0
        → sep.socket_sep_char ≢ b'r'
        → answer_of sep parse_json uuid (response json)
          ≡ parsed (parse_json (json ++ (sep.socket_sep_char ∷ [])) (length json))
    unfolding answer_of read_json
    answer_of-response json small z h k =
        let n = length-append json (sep.socket_sep_char ∷ []) in
        let m = length-append uuid (sep.socket_sep_char ∷ (json ++ (sep.socket_sep_char ∷ []))) in
        let size : sub_size (length uuid + (1 + length (json ++ (sep.socket_sep_char ∷ []))))
              (length uuid + 2)
            ≡ length json =
          omega (arith, n, m) in
        answer_of-own (json ++ (sep.socket_sep_char ∷ []))
        ∙ rw (read_json, not_internal_error json sep.socket_sep_char z h k, size) refl

    answer_of-cut_short :
        1 + length uuid < 2 ^ 64
        → answer_of sep parse_json uuid (uuid ++ (sep.socket_sep_char ∷ []))
          ≡ parsed (parse_json [] (2 ^ 64 - 1))
    unfolding read_json same
    answer_of-cut_short small =
        let size : sub_size (length uuid + (1 + 0)) (length uuid + 2) ≡ 2 ^ 64 - 1 = omega arith in
        answer_of-own [] ∙ rw (read_json, size) refl

    answer_of-other_uuid :
        (other rest : Str)
        → NoZero other
        → uuid ≢ other
        → answer_of sep parse_json other (uuid ++ (sep.socket_sep_char ∷ rest)) ≡ failed bad_message
    unfolding answer_of
    answer_of-other_uuid other rest z n =
        let text : Str = uuid ++ (sep.socket_sep_char ∷ rest) in
        let m = length-append uuid (sep.socket_sep_char ∷ rest) in
        let found : split_uuid sep text ≡ length uuid =
          split_uuid-append sep uuid rest sep.socket_sep_char one_word separated in
        let inside : (length uuid == length text) ≡ false = ground (arith, m) in
        rw (found, inside)
          (differ _ (length uuid == length other) (strncmp_same (length other) text other) refl
            refl)
      where
        differ :
            (x : Sent V) (b c : Bool)
            → (length uuid == length other) ≡ b
            → strncmp_same (length other) (uuid ++ (sep.socket_sep_char ∷ rest)) other ≡ c
            → (if not b || not c then failed bad_message else x) ≡ failed bad_message
        differ x true true e g =
            let l : length uuid ≡ length other = ground (arith, e) in
            absurd (n (strncmp_same-eq uuid (sep.socket_sep_char ∷ rest) other z l g))
        differ x true false e g = refl
        differ x false c e g = refl

    module _ {max_us : ℕ} {start : Timespec} {rounds : List Round} (size : ℕ) (buf : Str)
        (sized : length buf ≡ size) (writes : Str → Bool) (message : Str) where
      -- An answer that follows the protocol is parsed whole: when the message could be written, and the
      -- answer is the identifier of the query, a separator, a text and a separator, cut in any way into
      -- reads within the time limit, none but the last of which ends in a separator, then the parser is
      -- given the text and its length, and its result is that of `send_message`. The text has no zero
      -- byte, the separator is one that is found, and is neither zero nor an r, the identifier has no
      -- separator, and the answer fits in the buffer, whose size is at most 2^64. The text may be
      -- `internal_error`.
      pub send_message-response :
          (json : Str)
          → NoZero json
          → sep.socket_sep_char ≢ 0
          → sep.socket_sep_char ≢ b'r'
          → length (response json) < size
          → size ≤ 2 ^ 64
          → Arrives sep max_us start (response json) rounds
          → writes (message_text uuid message) ≡ true
          → send_message sep parse_json size max_us start writes rounds uuid message buf
            ≡ some (parsed (parse_json (json ++ (sep.socket_sep_char ∷ [])) (length json)))
      send_message-response json z h k fits word a sent =
          send_message-Arrives (response json) a size uuid buf fits sized writes message sent
          ∙ ap some (answer_of-response json (omega arith) z h k)

      -- An answer cut behind its first separator: when the message could be written, and reads within the
      -- time limit bring the identifier of the query and the separator, with which the last of them ends,
      -- whatever follows later, the parser is given an empty text and the length 2^64 - 1, and its result
      -- is that of `send_message`. The separator is one that is found, the identifier has none, and both
      -- fit in the buffer, whose size is at most 2^64.
      pub send_message-cut_short :
          1 + length uuid < size
          → size ≤ 2 ^ 64
          → Arrives sep max_us start (uuid ++ (sep.socket_sep_char ∷ [])) rounds
          → writes (message_text uuid message) ≡ true
          → send_message sep parse_json size max_us start writes rounds uuid message buf
            ≡ some (parsed (parse_json [] (2 ^ 64 - 1)))
      send_message-cut_short fits word a sent =
          let n = length-append uuid (sep.socket_sep_char ∷ []) in
          send_message-Arrives (uuid ++ (sep.socket_sep_char ∷ [])) a size uuid buf
            (omega (arith, n)) sized writes message sent
          ∙ ap some (answer_of-cut_short (omega arith))

      -- An answer to another query is refused: when the message could be written, the answer fits in the
      -- buffer and comes in reads within the time limit, none but the last of which ends in a separator,
      -- and the identifier in front of its first separator is not that of the query, which has no zero
      -- byte, `send_message` reports a bad message, whatever the parser would say.
      pub send_message-other_uuid :
          (other rest : Str)
          → NoZero other
          → uuid ≢ other
          → length (uuid ++ (sep.socket_sep_char ∷ rest)) < size
          → Arrives sep max_us start (uuid ++ (sep.socket_sep_char ∷ rest)) rounds
          → writes (message_text other message) ≡ true
          → send_message sep parse_json size max_us start writes rounds other message buf
            ≡ some (failed bad_message)
      send_message-other_uuid other rest z n fits a sent =
          send_message-Arrives (uuid ++ (sep.socket_sep_char ∷ rest)) a size other buf fits sized
            writes message sent
          ∙ ap some (answer_of-other_uuid other rest z n)
