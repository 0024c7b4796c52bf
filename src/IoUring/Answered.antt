-- ===== src/IoUring/Answered.antt =====
-- net/io_uring.cpp: what becomes of each request, over any number of rounds of poll.
use mathlib.Core.List.{Permᴰ, append_assoc, append-nil, map-append}
use mathlib.Core.List.Permᴰ
use magio.Prelude.{
  Permᴰ-chain, ℕ, ◌≡◌, refl, ap, sym, ◌∙◌, subst, Bool, true, false, Option, none, some, List, [],
  ◌∷◌, ◌++◌, arith, if◌then◌else◌, if-All, get_elem?, bind-some, some-inj, map, pos, ◌==◌, ◌||◌,
  ◌&&◌, neg_part, is_negative, Option-cases, inl, inr, ◌>>=◌,
}
use magio.Io.{IoContext}
use magio.IoUring.{
  Entry, request, wake_read, cancelling, IoUring, Callback, completed, is_noop, decrement,
  handle_cqe, prep_wake_up,
}
use magio.IoUring.Pending.{
  request_in, requests_in, requests_in-remove_at, pending, asked_by_all, prepare-pending,
  calls-pending, submit-pending,
}
use magio.IoUring.Poll.{
  Call, Completion, Kernel, remove_at, submit, Polled, etime, eagain, eintr, reaction, listed,
  serve_one, serve, poll,
}

-- A request and the kernel's answer to it, and the callback that it gets.
abbrev pub Answer : Type 0
Answer = IoContext × Completion

abbrev pub callback_for : Answer → Callback
callback_for (ioc, c) = completed c.peer ioc c.res

abbrev pub requested : List Answer → List IoContext
requested xs = map (λ x. x.0) xs

counted_down-pending :
    (r : IoUring) (b : Bool)
    → pending (if b then r else record r { io_num = decrement r.io_num }) ≡ pending r
counted_down-pending r true = refl
counted_down-pending r false = refl

rearmed-pending :
    (r r' : IoUring) → prep_wake_up (record r { event = 0 }) ≡ some r' → pending r' ≡ pending r
unfolding prep_wake_up
rearmed-pending r r' h =
    prepare-pending r (record r { event = 0 }) wake_read r' refl refl h ∙ append-nil (pending r)

leave-pending :
    (r : IoUring) (i : ℕ) (e : Entry)
    → get_elem? r.in_flight i ≡ some e
    → Permᴰ (pending r) (request_in e ++ pending (record r { in_flight = remove_at r.in_flight i }))
leave-pending r i e g =
    subst (Permᴰ (pending r))
      (append_assoc (request_in e) (requests_in (remove_at r.in_flight i)) (requests_in r.sq))
      (Permᴰ.append_right (requests_in r.sq) (requests_in-remove_at r.in_flight i e g))

listed-append :
    (back : Option Callback) (cs : List Callback) → listed back [] ++ cs ≡ listed back cs
listed-append none cs = refl
listed-append (some c) cs = refl

module _ (react : Callback → List Call) where
  -- What callbacks ask for.
  abbrev pub asked_on : List Callback → List IoContext
  asked_on [] = []
  asked_on (c ∷ cs) = asked_by_all (react c) ++ asked_on cs

  -- From `r` to `r'` the callbacks `backs` were made.
  pub record Answered (r r' : IoUring) (backs : List Callback) : Type 0 where
    pub answers : List Answer
    pub called : backs ≡ map callback_for answers
    pub kept : Permᴰ (pending r ++ asked_on backs) (requested answers ++ pending r')

  asked_on-append : (xs ys : List Callback) → asked_on (xs ++ ys) ≡ asked_on xs ++ asked_on ys
  asked_on-append [] ys = refl
  asked_on-append (c ∷ xs) ys =
      ap (λ l. asked_by_all (react c) ++ l) (asked_on-append xs ys)
      ∙ sym (append_assoc (asked_by_all (react c)) (asked_on xs) (asked_on ys))

  Answered-same : (r r' : IoUring) → pending r' ≡ pending r → Answered r r' []
  Answered-same r r' e = record {
    answers = [];
    called = refl;
    kept = subst (λ l. Permᴰ (pending r ++ []) l) (sym e) (Permᴰ.append-nil (pending r));
  }

  Answered-trans :
      (r r' r'' : IoUring) (xs ys : List Callback)
      → Answered r r' xs
      → Answered r' r'' ys
      → Answered r r'' (xs ++ ys)
  Answered-trans r r' r'' xs ys a b = record {
    answers = a.answers ++ b.answers;
    called =
        ap (λ l. l ++ ys) a.called
        ∙ ap (λ l. map callback_for a.answers ++ l) b.called
        ∙ sym (map-append callback_for a.answers b.answers);
    kept =
        subst (λ l. Permᴰ (pending r ++ l) (requested (a.answers ++ b.answers) ++ pending r''))
          (sym (asked_on-append xs ys))
          (subst (λ l. Permᴰ (pending r ++ (asked_on xs ++ asked_on ys)) (l ++ pending r''))
            (sym (map-append (λ (x : Answer). x.0) a.answers b.answers))
            (Permᴰ-chain (pending r) (asked_on xs) (requested a.answers) (pending r') (asked_on ys)
              (requested b.answers) (pending r'') a.kept b.kept));
  }

  answered_by : Entry → Completion → List Answer
  answered_by (request p ioc) c = (ioc, c) ∷ []
  answered_by _ c = []

  -- The entry `e` has left the kernel; its callback, if it has one, is made.
  handle_cqe-answers :
      (r : IoUring) (e : Entry) (c : Completion) (x : IoUring × Option Callback)
      → handle_cqe r e c.peer c.res ≡ some x
      → (pending x.0 ≡ pending r)
        × (requested (answered_by e c) ≡ request_in e)
        × (listed x.1 [] ≡ map callback_for (answered_by e c))
  unfolding handle_cqe answered_by
  handle_cqe-answers r (request p ioc) c x h = (
    ap (λ y. pending y.0) (sym (some-inj h)) ∙ counted_down-pending r (is_noop ioc.op),
    refl,
    ap (λ y. listed y.1 []) (sym (some-inj h)),
  )
  handle_cqe-answers r wake_read c x h =
      let s = record r { event = 0 } in
      let (r', p, q) = bind-some (prep_wake_up s) (λ y. some (y, none)) x h in
      (
        ap (λ y. pending y.0) (sym (some-inj q)) ∙ rearmed-pending r r' p,
        refl,
        ap (λ y. listed y.1 []) (sym (some-inj q)),
      )
  handle_cqe-answers r (cancelling fd) c x h =
      (ap (λ y. pending y.0) (sym (some-inj h)), refl, ap (λ y. listed y.1 []) (sym (some-inj h)))

  reaction-pending :
      (r : IoUring) (back : Option Callback) (r' : IoUring)
      → reaction react r back ≡ some r'
      → pending r' ≡ pending r ++ asked_on (listed back [])
  reaction-pending r none r' h = sym (ap pending (some-inj h)) ∙ sym (append-nil (pending r))
  reaction-pending r (some c) r' h =
      calls-pending (react c) r r' h
      ∙ ap (λ l. pending r ++ l) (sym (append-nil (asked_by_all (react c))))

  serve_one-Answered :
      (r : IoUring) (e : Entry) (c : Completion) (x : IoUring × Option Callback)
      → get_elem? r.in_flight c.index ≡ some e
      → serve_one react r e c ≡ some x
      → Answered r x.0 (listed x.1 [])
  unfolding serve_one
  serve_one-Answered r e c x g h =
      let s = record r { in_flight = remove_at r.in_flight c.index } in
      let ((r₁, back), p, q) = bind-some (handle_cqe s e c.peer c.res) _ x h in
      let (r₂, p₂, q₂) = bind-some (reaction react r₁ back) _ x q in
      let (same, answered, called) = handle_cqe-answers s e c (r₁, back) p in
      let asked = asked_on (listed back []) in
      subst (λ y. Answered r y.0 (listed y.1 [])) (some-inj q₂)
        (record {
          answers = answered_by e c;
          called = called;
          kept =
              subst (λ l. Permᴰ (pending r ++ asked) (l ++ pending r₂)) (sym answered)
                (subst (λ l. Permᴰ (pending r ++ asked) (request_in e ++ l))
                  (sym (reaction-pending r₁ back r₂ p₂ ∙ ap (λ l. l ++ asked) same))
                  (subst (λ l. Permᴰ (pending r ++ asked) l)
                    (append_assoc (request_in e) (pending s) asked)
                    (Permᴰ.append_right asked (leave-pending r c.index e g))));
        })

  serve-Answered :
      (cs : List Completion) (r : IoUring) (x : IoUring × List Callback)
      → serve react r cs ≡ some x
      → Answered r x.0 x.1
  unfolding serve
  serve-Answered [] r x h = subst (λ y. Answered r y.0 y.1) (some-inj h) (Answered-same r r refl)
  serve-Answered (c ∷ cs) r x h = elim (Option-cases (get_elem? r.in_flight c.index)) [
    | inl n ↦ serve-Answered cs r x (ground (arith, n, h))
    | inr (e, g) ↦
        let ((r₁, back), p, q) =
          bind-some (serve_one react r e c)
            (λ (r', back). serve react r' cs >>= λ (r'', backs). some (r'', listed back backs)) x
            (ground (arith, g, h)) in
        let ((r₂, backs), p₂, q₂) = bind-some (serve react r₁ cs) _ x q in
        subst (λ y. Answered r y.0 y.1) (some-inj q₂)
          (subst (Answered r r₂) (listed-append back backs) (
            Answered-trans r r₁ r₂ (listed back []) backs (serve_one-Answered r e c (r₁, back) g p)
              (serve-Answered cs r₁ (r₂, backs) p₂)))
  ]

  abbrev AnsweredFrom : IoUring → Polled → Type 0
  AnsweredFrom r x = Answered r x.ring x.callbacks

  served-Answered :
      (cs : List Completion) (r r' : IoUring)
      → pending r' ≡ pending r
      → (x : Polled)
      → (serve react r' cs >>= λ (r'', backs).
          some (record { ring = r''; status = pos 1; ec = 0; callbacks = backs }))
        ≡ some x
      → AnsweredFrom r x
  served-Answered cs r r' e x h =
      let ((r₁, backs), p, q) = bind-some (serve react r' cs) _ x h in
      subst (AnsweredFrom r) (some-inj q) (
        Answered-trans r r' r₁ [] backs (Answered-same r r' e) (serve-Answered cs r' (r₁, backs) p))

  pub poll-Answered :
      (r : IoUring) (nanosec : ℕ) (k : Kernel) (x : Polled)
      → poll react r nanosec k ≡ some x
      → AnsweredFrom r x
  unfolding poll
  poll-Answered r nanosec k x h =
      let r' = submit r k.submitted in
      let e = submit-pending r k.submitted in
      let quiet = Answered-same r r' e in
      if-All (AnsweredFrom r) ((nanosec == 0) && (r.io_num == 0)) _ _
        (λ y q. subst (AnsweredFrom r) (some-inj q) (Answered-same r r refl))
        (if-All (AnsweredFrom r) ((neg_part k.ret == etime) || (neg_part k.ret == eagain)) _ _
          (λ y q. subst (AnsweredFrom r) (some-inj q) quiet)
          (if-All (AnsweredFrom r) (neg_part k.ret == eintr) _ _
            (λ y q. subst (AnsweredFrom r) (some-inj q) quiet)
            (if-All (AnsweredFrom r) (is_negative k.ret) _ _
              (λ y q. subst (AnsweredFrom r) (some-inj q) quiet)
              (served-Answered k.completions r r' e))))
        x h
