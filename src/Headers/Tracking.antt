-- ===== src/Headers/Tracking.antt =====
-- What the next hop reads of the tracking headers that a hop wrote (src/headers.ts).
use kafka_harbor.Prelude.{
  ℕ, ◌+◌, ◌^◌, ◌≤◌, ◌<◌, ◌≡◌, refl, Option, none, some, [], ◌∷◌, ◌++◌, arith, Text, text_eq, trim,
  show, or_else, insert, dict_laws, decimal_value-show, is_decimal-show, trim-show, length-show,
  decimal_value-lt,
}
use kafka_harbor.Headers.{
  Platform, HeaderNames, header_names, MessageHeaders, RetryInfo, non_blank, parse_count,
  parse_instant, checked_info, read_retry_info, stamp_producer, write_retry_info,
}

-- What the library relies on of `Date`: an ISO text is no blank, and gives its instant back.
pub record IsPlatform (platform : Platform) : Type 0 where
  pub parse-to_iso : (at : ℕ) → platform.parse_date (platform.to_iso at) ≡ some at
  pub iso_not_blank : (at : ℕ) → non_blank (some (platform.to_iso at)) ≡ some (platform.to_iso at)

-- Two header names differ as their endings do.
text_eq-append : (p s t : Text) → text_eq (p ++ s) (p ++ t) ≡ text_eq s t
unfolding text_eq
text_eq-append [] s t = refl
text_eq-append (c ∷ p) s t = ground (arith, text_eq-append p s t)

parse_count-show : (n : ℕ) → n < 10 ^ 9 → parse_count (some (show n)) ≡ some n
unfolding parse_count
parse_count-show n h =
    ground (arith, trim-show n, is_decimal-show n, decimal_value-show n, length-show 8 n h)

-- The block that the failure of a message adds up to: one failure more, the first one's topic and
-- instant.
abbrev pub next_info : Option RetryInfo → Text → Text → ℕ → RetryInfo
next_info none topic error now = record {
  count = 1;
  original_topic = topic;
  first_failure_at = now;
  last_error = error;
}
next_info (some r) topic error now = record {
  count = r.count + 1;
  original_topic = r.original_topic;
  first_failure_at = r.first_failure_at;
  last_error = error;
}

module _ (platform : Platform) (laws : IsPlatform platform) (prefix : Text) where
  abbrev names : HeaderNames
  names = header_names prefix

  parse_instant-to_iso : (at : ℕ) → parse_instant platform (some (platform.to_iso at)) ≡ some at
  unfolding parse_instant
  parse_instant-to_iso at = rw (parse_instant, laws.iso_not_blank at) (laws.parse-to_iso at)

  read-write_fields :
      (headers : MessageHeaders) (count first : ℕ) (topic error client minted : Text) (at : ℕ)
      → 1 ≤ count
      → count < 10 ^ 9
      → non_blank (some topic) ≡ some topic
      → read_retry_info platform
          (stamp_producer platform
            (insert names.last_error error (
              insert names.first_failure_at (platform.to_iso first) (
                insert names.original_topic topic (insert names.retry_count (show count) headers))))
            names
            client
            at
            minted)
          names
        ≡ some (record {
          count = count;
          original_topic = topic;
          first_failure_at = first;
          last_error = error;
        })
  unfolding read_retry_info stamp_producer header_names text_eq
  read-write_fields headers count first topic error client minted at low high blank =
      simp (dict_laws, text_eq-append)
        (rw (parse_count-show count high, blank, parse_instant-to_iso first)
          (unfold checked_info in ground arith))

  -- A hop's tracking headers, stamped on the way out, give the next hop the failure count plus one,
  -- the topic and instant of the first failure, and the error of this hop, as long as the topic is
  -- not blank and the count has at most nine digits.
  pub read-write_retry_info :
      (headers : MessageHeaders) (previous : Option RetryInfo) (topic error client minted : Text)
      (now at : ℕ)
      → non_blank (some (next_info previous topic error now).original_topic)
        ≡ some (next_info previous topic error now).original_topic
      → (next_info previous topic error now).count < 10 ^ 9
      → read_retry_info platform
          (stamp_producer platform
            (write_retry_info platform headers names previous topic error now)
            names
            client
            at
            minted)
          names
        ≡ some (next_info previous topic error now)
  unfolding write_retry_info
  read-write_retry_info headers none topic error client minted now at blank high =
      read-write_fields headers 1 now topic error client minted at (omega arith) high blank
  read-write_retry_info headers (some r) topic error client minted now at blank high =
      read-write_fields headers (r.count + 1) r.first_failure_at r.original_topic error client
        minted at (omega arith) high blank

checked_info_fields :
    (platform : Platform) (count : Option ℕ) (topic : Option Text) (at : Option ℕ) (error : Text)
    (info : RetryInfo)
    → checked_info platform count topic at error ≡ some info
    → (1 ≤ info.count) × (count ≡ some info.count) × (topic ≡ some info.original_topic)
unfolding checked_info
checked_info_fields platform (some c) (some t) (some a) error info h = ground arith
checked_info_fields platform _ _ _ error info h = ground arith

parse_count-lt : (value : Option Text) (n : ℕ) → parse_count value ≡ some n → n < 10 ^ 9
unfolding parse_count
parse_count-lt value n h = ground (arith, decimal_value-lt 9 (trim (or_else value [])))

non_blank_idem :
    (value : Option Text) (t : Text) → non_blank value ≡ some t → non_blank (some t) ≡ some t
unfolding non_blank
non_blank_idem none t h = cc
non_blank_idem (some value) t h = ground arith

-- What is read was checked: the count has between one and nine digits and is no zero, and the
-- topic is no blank.
pub read_retry_info_checked :
    (platform : Platform) (headers : MessageHeaders) (ns : HeaderNames) (info : RetryInfo)
    → read_retry_info platform headers ns ≡ some info
    → (1 ≤ info.count)
      × (info.count < 10 ^ 9)
      × (non_blank (some info.original_topic) ≡ some info.original_topic)
unfolding read_retry_info
read_retry_info_checked platform headers ns info h =
    let (low, count, topic) = checked_info_fields platform _ _ _ _ info h in
    (low, parse_count-lt _ info.count count, non_blank_idem _ info.original_topic topic)
