-- ===== src/Logger/TestClient/Asserts.antt =====
-- The assertions of the test client of src/logger/cmd/test_client hold against the logger.
use mathlib.Core.Path.{subst}
use detsys_testkit.Base.{
  ℕ, zero, suc, ◌+◌, ◌-◌, ◌*◌, ◌/◌, ◌%◌, ◌^◌, ◌≤◌, ◌<◌, ◌≡◌, ◌≢◌, refl, sym, ap, ◌∙◌, Bool, List,
  [], ◌∷◌, ◌++◌, append-nil, arith, length, All, All-append, ok, ◌⊎◌, inl, inr, Bool-cases, ◌==◌,
  not, ◌&&◌, nat_eq,
}
use detsys_testkit.Base.Text.{Text, text}
use detsys_testkit.Events.{Time}
use detsys_testkit.Logger.{Row}
use detsys_testkit.Logger.Pipe.Requests.{
  Request, write, ask, stream, IsPrintable, IsTidy, rows, last_index,
}
use detsys_testkit.Logger.TestClient.{
  Client, log_event, index_event, event_name, event_meta, event_args, compare_index, ask_index,
  send, round, loop, main,
}
use detsys_testkit.Logger.TestClient.Replies.{
  logger_reply, logger_reply_lem, stream-append, last_index-append, length-rows-append,
  log_event_lem, index_event_lem, me-IsTidy, event_args-IsColumn, read_index-index_line,
}

-- After some rounds: what was written are so many entries, with questions among them, and the index that
-- was read is the one after the last full 500 of them.
record IsInStep (highest i : ℕ) (last_read : ℕ) (written : Text) : Type 0 where
  pub rs : List Request
  pub tidy : All IsTidy rs
  pub sent : written ≡ stream rs
  pub counted : last_index rs highest ≡ (highest + i) % 2 ^ 64
  pub number : length (rows rs) ≡ i
  pub recent :
      ((i ≤ 500) × (last_read ≡ 0))
      ⊎ ((501 ≤ i) × (last_read ≡ (highest + ((i + 499) / 500 - 1) * 500) % 2 ^ 64))

compare_index_lem :
    (trim_space reply : Text → Text) (j last_read : ℕ) (written : Text)
    → (last_read ≡ 0) ⊎ (j ≡ (last_read + 500) % 2 ^ 64)
    → compare_index trim_space reply j (record { last_read_index = last_read; written = written })
      ≡ ok (record { last_read_index = j; written = written })
unfolding compare_index
compare_index_lem trim_space reply j last_read written h = ground arith

-- The index that is read fits the last one.
fits :
    (highest i last_read : ℕ) (written : Text) (g : IsInStep highest i last_read written)
    → i % 500 ≡ 0
    → i ≢ 0
    → (last_read ≡ 0) ⊎ ((highest + i) % 2 ^ 64 ≡ (last_read + 500) % 2 ^ 64)
fits highest i last_read written g h k = elim g.recent [
  | inl (_, none_read) ↦ inl none_read
  | inr (more, read) ↦ inr (omega arith)
]

-- The index that was read stays the last one between the questions.
goes_on_lem :
    (highest i last_read : ℕ)
    → ((i ≤ 500) × (last_read ≡ 0))
      ⊎ ((501 ≤ i) × (last_read ≡ (highest + ((i + 499) / 500 - 1) * 500) % 2 ^ 64))
    → (i % 500 ≢ 0) ⊎ (i ≡ 0)
    → ((i + 1 ≤ 500) × (last_read ≡ 0))
      ⊎ ((501 ≤ i + 1) × (last_read ≡ (highest + ((i + 1 + 499) / 500 - 1) * 500) % 2 ^ 64))
goes_on_lem highest i last_read (inl (few, none_read)) h =
    inl (elim h [ inl rest ↦ omega arith | inr first ↦ omega arith ], none_read)
goes_on_lem highest i last_read (inr (more, read)) h = inr (
  omega arith,
  read
      ∙ ap (λ n. (highest + n) % 2 ^ 64)
          (elim h [ inl rest ↦ omega arith | inr first ↦ omega arith ]),
)

-- One more entry after the requests that were made.
sent_lem :
    (highest i last_read : ℕ) (written : Text) (rs : List Request)
    → All IsTidy rs
    → written ≡ stream rs
    → last_index rs highest ≡ (highest + i) % 2 ^ 64
    → length (rows rs) ≡ i
    → ((i + 1 ≤ 500) × (last_read ≡ 0))
      ⊎ ((501 ≤ i + 1) × (last_read ≡ (highest + ((i + 1 + 499) / 500 - 1) * 500) % 2 ^ 64))
    → IsInStep highest (i + 1) last_read (written ++ log_event event_name event_meta (event_args i))
unfolding stream last_index rows
sent_lem highest i last_read written rs tidy sent counted number recent =
    let r : Request = write (text "test_client") (event_name, event_meta, event_args i) in
    record {
      rs = rs ++ r ∷ [];
      tidy =
          All-append IsTidy rs _ tidy
            ((omega arith, omega arith, omega arith, event_args-IsColumn i), tt);
      sent =
          ap (λ w. w ++ log_event event_name event_meta (event_args i)) sent
          ∙ ap (λ w. stream rs ++ w)
              (log_event_lem event_name event_meta (event_args i) ∙ sym (append-nil _))
          ∙ sym (stream-append rs (r ∷ []));
      counted = last_index-append rs (r ∷ []) highest ∙ omega (arith, counted);
      number = omega (arith, length-rows-append rs (r ∷ []));
      recent = recent;
    }

module _ (to_lower trim_space : Text → Text) (log_lower : to_lower (text "log") ≡ text "log")
    (index_lower : to_lower (text "index") ≡ text "index")
    (trims : (s : Text) → IsPrintable s → trim_space (s ++ 10 ∷ []) ≡ s)
    (lates : Text → List (Time × Bool))
    (enough : (rs : List Request) → 3 * length rs ≤ length (lates (stream rs))) (highest : ℕ)
    (before : List Row) where
  ask_index_lem :
      (i last_read : ℕ) (written : Text) (g : IsInStep highest i last_read written)
      → i % 500 ≡ 0
      → i ≢ 0
      → ask_index trim_space
          (logger_reply to_lower trim_space lates highest before)
          (record { last_read_index = last_read; written = written })
        ≡ ok (record {
          last_read_index = (highest + i) % 2 ^ 64;
          written = stream (g.rs ++ ask (text "test_client") ∷ []);
        })
  unfolding ask_index stream
  ask_index_lem i last_read written g h k =
      let asks : written ++ index_event ≡ stream (g.rs ++ ask (text "test_client") ∷ []) =
        ap (λ w. w ++ index_event) g.sent
        ∙ ap (λ w. stream g.rs ++ w) (index_event_lem ∙ sym (append-nil _))
        ∙ sym (stream-append g.rs (ask (text "test_client") ∷ [])) in
      rw (asks) (
        rw
          (logger_reply_lem to_lower trim_space log_lower index_lower trims lates enough g.rs
            highest before g.tidy)
          (rw (g.counted) (
            rw
              (read_index-index_line trim_space
                (logger_reply to_lower trim_space lates highest before) ((highest + i) % 2 ^ 64)
                trims (omega arith))
              (compare_index_lem trim_space (logger_reply to_lower trim_space lates highest before)
                ((highest + i) % 2 ^ 64) last_read _ (fits highest i last_read written g h k)))))

  round_lem :
      (i last_read : ℕ) (written : Text)
      → IsInStep highest i last_read written
      → (last_read' : ℕ) × (written' : Text) × (round trim_space
            (logger_reply to_lower trim_space lates highest before)
            i
            (record { last_read_index = last_read; written = written })
          ≡ ok (record { last_read_index = last_read'; written = written' }))
        × IsInStep highest (i + 1) last_read' written'
  unfolding round send rows
  round_lem i last_read written g = elim (Bool-cases (i % 500 == 0 && not (i == 0))) [
    | inl asks ↦
        (let divides : i % 500 ≡ 0 = ground arith in
          let some_sent : i ≢ 0 = ground arith in
          let rs : List Request = g.rs ++ ask (text "test_client") ∷ [] in
          (
            (highest + i) % 2 ^ 64,
            stream rs ++ log_event event_name event_meta (event_args i),
            rw (asks) (rw (ask_index_lem i last_read written g divides some_sent) refl),
            sent_lem highest i _ (stream rs) rs (All-append IsTidy g.rs _ g.tidy (me-IsTidy, tt))
                refl (last_index-append g.rs _ highest ∙ unfold last_index in g.counted)
                (omega (arith, length-rows-append g.rs (ask (text "test_client") ∷ []), g.number))
                (inr (omega arith, ap (λ n. (highest + n) % 2 ^ 64) (omega arith))),
          ))
    | inr goes_on ↦ (
      last_read,
      written ++ log_event event_name event_meta (event_args i),
      rw (goes_on) refl,
      sent_lem highest i last_read written g.rs g.tidy g.sent g.counted g.number
          (goes_on_lem highest i last_read g.recent (ground arith)),
    )
  ]

  loop_lem :
      (n i last_read : ℕ) (written : Text)
      → IsInStep highest i last_read written
      → (last_read' : ℕ) × (written' : Text) × (loop trim_space
            (logger_reply to_lower trim_space lates highest before)
            n
            i
            (record { last_read_index = last_read; written = written })
          ≡ ok (record { last_read_index = last_read'; written = written' }))
        × IsInStep highest (n + i) last_read' written'
  unfolding loop
  loop_lem zero i last_read written g =
      (last_read, written, refl, subst (λ m. IsInStep highest m last_read written) (omega arith) g)
  loop_lem (suc n) i last_read written g =
      let (j, w, e, g') = round_lem i last_read written g in
      let (k, w', e', g'') = loop_lem n (i + 1) j w g' in
      (k, w', rw (e) e', subst (λ m. IsInStep highest m k w') (omega arith) g'')

  -- If ToLower leaves the two kinds of messages as they are, TrimSpace takes the newline off a
  -- printable text, nobody else writes, and the logger, started at an index below 2^64, answers each
  -- question after three rounds for each request, then no assertion of the test client fails: it
  -- ends after writing 5000 entries, without tabs or newlines in their columns, with questions among
  -- them, and the last index that it read is 4500 above the one at the start, modulo 2^64.
  pub client_main_lem :
      highest < 2 ^ 64
      → (c : Client) × (rs : List Request) × (main trim_space
            (logger_reply to_lower trim_space lates highest before)
          ≡ ok c)
        × (c.written ≡ stream rs)
        × All IsTidy rs
        × (length (rows rs) ≡ 5000)
        × (c.last_read_index ≡ (highest + 4500) % 2 ^ 64)
  unfolding main
  client_main_lem h =
      let (k, w, e, g) = loop_lem 5000 0 0 [] (record {
        rs = [];
        tidy = tt;
        sent = unfold stream in refl;
        counted = unfold last_index in omega arith;
        number = unfold rows in refl;
        recent = inl (omega arith, refl);
      }) in
      (
        record { last_read_index = k; written = w },
        g.rs,
        e,
        g.sent,
        g.tidy,
        omega (arith, g.number),
        elim g.recent [
          | inl (few, _) ↦ absurd (omega arith)
          | inr (_, read) ↦ read ∙ ap (λ n. (highest + n) % 2 ^ 64) (omega arith)
        ],
      )
