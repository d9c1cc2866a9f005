-- ===== src/Enrich/Service/Asked.antt =====
-- What the loop over the providers makes of their answers.
use proxy_sampler.Prelude.{
  ◌≡◌, refl, sym, ap, ◌∙◌, subst, Bool, false, ◌||◌, List, [], ◌∷◌, ◌++◌, append_assoc, append-nil,
  Option, none, some, Text, codes, insert, is_nil, contains, Distinct, list_eq, nat_eq,
  Option-cases, inl, inr, arith, if◌then◌else◌,
}
use proxy_sampler.Enrich.Partial.{
  Partial, no_partial, merge_text, merge_option, merge, union_strings,
}
use proxy_sampler.Enrich.Partial.Fields.{
  TextField, BoolField, IntField, text_of, bool_of, int_of, text_of-merge, text_of-errors,
  bool_of-merge, bool_of-errors, int_of-merge, int_of-errors, had_signal-merge,
  contains-union_strings, union_strings-Distinct, hits_of-merge, empty_text, empty_bool, empty_int,
}
use proxy_sampler.Enrich.Service.{ProviderAnswer, ask_all}

-- The last of the values that some provider supplies.
abbrev pub last_some {ℓ} :
    {A : Type ℓ} → (ProviderAnswer → Option A) → List ProviderAnswer → Option A
last_some f [] = none
last_some f (a ∷ answers) = elim (last_some f answers) [ none ↦ f a | some v ↦ some v ]

abbrev pub last_text : (ProviderAnswer → Text) → List ProviderAnswer → Text
last_text f [] = []
last_text f (a ∷ answers) = if is_nil (last_text f answers) then f a else last_text f answers

-- The texts of the errors, in the order of the providers.
abbrev pub messages : List ProviderAnswer → List Text
messages [] = []
messages (a ∷ answers) = elim a.error [
  | none ↦ messages answers
  | some e ↦ (a.name ++ (codes ": " ++ e)) ∷ messages answers
]

abbrev pub any_answer : (ProviderAnswer → Bool) → List ProviderAnswer → Bool
any_answer p [] = false
any_answer p (a ∷ answers) = p a || any_answer p answers

-- What a list of answers adds to a partial reputation, and to the errors.
record IsJoined (p : Partial) (errors : List Text) (answers : List ProviderAnswer)
    (r : Partial × List Text) : Type 0 where
  texts :
      (f : TextField)
      → text_of f r.0 ≡ merge_text (text_of f p) (last_text (λ a. text_of f a.partial) answers)
  bools :
      (f : BoolField)
      → bool_of f r.0 ≡ merge_option (bool_of f p) (last_some (λ a. bool_of f a.partial) answers)
  ints :
      (f : IntField)
      → int_of f r.0 ≡ merge_option (int_of f p) (last_some (λ a. int_of f a.partial) answers)
  signal : r.0.had_signal ≡ (p.had_signal || any_answer (λ a. a.partial.had_signal) answers)
  hits :
      (h : Text)
      → contains r.0.dnsbl_hits h
        ≡ (contains p.dnsbl_hits h || any_answer (λ a. contains a.partial.dnsbl_hits h) answers)
  distinct : Distinct p.dnsbl_hits → Distinct r.0.dnsbl_hits
  reported : r.1 ≡ errors ++ messages answers

-- One answer more, in front. The partial reputation that the rest starts from has the fields of the
-- merged one.
module _ (p q : Partial) (a : ProviderAnswer) (answers : List ProviderAnswer) (errors : List Text)
    (r : Partial × List Text)
    (text_eq : (f : TextField) → text_of f q ≡ merge_text (text_of f p) (text_of f a.partial))
    (bool_eq : (f : BoolField) → bool_of f q ≡ merge_option (bool_of f p) (bool_of f a.partial))
    (int_eq : (f : IntField) → int_of f q ≡ merge_option (int_of f p) (int_of f a.partial))
    (signal_eq : q.had_signal ≡ (p.had_signal || a.partial.had_signal))
    (hits_eq : q.dnsbl_hits ≡ union_strings p.dnsbl_hits a.partial.dnsbl_hits) where
  cons-IsJoined :
      (said : List Text)
      → messages (a ∷ answers) ≡ said ++ messages answers
      → IsJoined q (errors ++ said) answers r
      → IsJoined p errors (a ∷ answers) r
  cons-IsJoined said m later = record {
    texts = λ f. ground (arith, later.texts f, text_eq f);
    bools = λ f. ground (arith, later.bools f, bool_eq f);
    ints = λ f. ground (arith, later.ints f, int_eq f);
    signal = ground (arith, later.signal, signal_eq);
    hits = λ h.
        ground (
          arith,
          later.hits h,
          hits_eq,
          contains-union_strings p.dnsbl_hits a.partial.dnsbl_hits h,
        );
    distinct = λ d.
        later.distinct (
          subst Distinct (sym hits_eq)
            (union_strings-Distinct p.dnsbl_hits a.partial.dnsbl_hits d));
    reported =
        later.reported
        ∙ append_assoc errors said (messages answers)
        ∙ ap (λ l. errors ++ l) (sym m);
  }

ask_all-IsJoined :
    (p : Partial) (errors : List Text) (answers : List ProviderAnswer)
    → IsJoined p errors answers (ask_all p errors answers)
unfolding ask_all
ask_all-IsJoined p errors [] = record {
  texts = λ f. refl;
  bools = λ f. refl;
  ints = λ f. refl;
  signal = ground arith;
  hits = λ h. ground arith;
  distinct = λ d. d;
  reported = sym (append-nil errors);
}
ask_all-IsJoined p errors (a ∷ answers) =
    let q = merge p a.partial in
    elim (Option-cases a.error) [
      | inl h ↦ subst (IsJoined p errors (a ∷ answers)) (sym (ground (arith, h))) (
          cons-IsJoined p q a answers errors (ask_all q errors answers)
            (λ f. text_of-merge f p a.partial) (λ f. bool_of-merge f p a.partial)
            (λ f. int_of-merge f p a.partial) (had_signal-merge p a.partial)
            (hits_of-merge p a.partial) [] (ground (arith, h))
            (subst (λ es. IsJoined q es answers (ask_all q errors answers))
              (sym (append-nil errors)) (ask_all-IsJoined q errors answers)))
      | inr (e, h) ↦
          let es = insert a.name e q.errors in
          let said = (a.name ++ (codes ": " ++ e)) ∷ [] in
          subst (IsJoined p errors (a ∷ answers)) (sym (ground (arith, h))) (
            cons-IsJoined p (record q { errors = es }) a answers errors
              (ask_all (record q { errors = es }) (errors ++ said) answers)
              (λ f. text_of-errors f q es ∙ text_of-merge f p a.partial)
              (λ f. bool_of-errors f q es ∙ bool_of-merge f p a.partial)
              (λ f. int_of-errors f q es ∙ int_of-merge f p a.partial)
              (had_signal-merge p a.partial) (hits_of-merge p a.partial) said (ground (arith, h))
              (ask_all-IsJoined (record q { errors = es }) (errors ++ said) answers))
    ]

-- What the answers of all providers say.
pub record IsCollected (answers : List ProviderAnswer) (r : Partial × List Text) : Type 0 where
  pub texts : (f : TextField) → text_of f r.0 ≡ last_text (λ a. text_of f a.partial) answers
  pub bools : (f : BoolField) → bool_of f r.0 ≡ last_some (λ a. bool_of f a.partial) answers
  pub ints : (f : IntField) → int_of f r.0 ≡ last_some (λ a. int_of f a.partial) answers
  pub signal : r.0.had_signal ≡ any_answer (λ a. a.partial.had_signal) answers
  pub hits :
      (h : Text)
      → contains r.0.dnsbl_hits h ≡ any_answer (λ a. contains a.partial.dnsbl_hits h) answers
  pub distinct : Distinct r.0.dnsbl_hits
  pub reported : r.1 ≡ messages answers

-- Once all providers are asked, whatever fails, each field of one value is that of the last provider
-- that supplies it; there is a signal if some provider gives one; the hits of the block lists are
-- those of all providers, each once; and there is one error for each provider that fails, in the
-- order in which they are asked.
pub ask_all-IsCollected :
    (answers : List ProviderAnswer) → IsCollected answers (ask_all no_partial [] answers)
ask_all-IsCollected answers =
    let joined = ask_all-IsJoined no_partial [] answers in
    record {
      texts = λ f. joined.texts f ∙ empty_text f _;
      bools = λ f. joined.bools f ∙ empty_bool f _;
      ints = λ f. joined.ints f ∙ empty_int f _;
      signal = joined.signal;
      hits = joined.hits;
      distinct = joined.distinct tt;
      reported = joined.reported;
    }
