-- ===== src/Parse/Content.antt =====
-- What the tables hold: under each kind, the values of the instructions of that kind, in the order
-- of the instructions.
use solus_protocol.Base.{
  ◌↔◌, iff_trans, ◌⊎◌, subst, Bool, true, false, ◌==◌, nat_eq, if◌then◌else◌, ◌≡◌, refl, inl, inr,
  ◌∙◌, ap, sym, Option, none, some, List, [], ◌∷◌, arith,
}
use solus_protocol.Base.Table.{get_or_empty, push, push_all, select, get_or_empty-push_all}
use solus_protocol.Error.{Result, ok, ◌>>=◌, Result-cases, >>=-eq-ok, ok-injective}
use solus_protocol.Instruction.{Instruction, Programs}
use solus_protocol.Parse.Types.{ParsedSystemType, ParsedSplType, system_type_eq, spl_type_eq}
use solus_protocol.Error.Traverse.{AllPairs, AllPairs-iff}
use mathlib.Core.Option.{some-injective}
use solus_protocol.Parse.Described.{
  Decoded, SaysSystem, SaysToken, described_system, described_token,
}
use solus_protocol.Parse.Arms.{
  system_entry-described, spl_token_entry-described, token_2022_entry-described,
}
use solus_protocol.Parse.Accounts.{pubkeys}
use solus_protocol.Parse.System.{system_entry, SystemEntry}
use solus_protocol.Parse.Token.{spl_token_entry, token_2022_entry, SplEntry}
use solus_protocol.Parse.Loop.{
  SystemTable, SplTable, read_system, read_token, parse_system_from, parse_token_from,
  parse_system_instructions, parse_token_instructions,
}

-- All that the instructions say, in order; the first malformed one is the result.
unfoldable pub collect :
    {E : Type 0} → (Instruction → Result (Option E)) → List Instruction → Result (List E)
collect read [] = ok []
collect read (ix ∷ ixs) = do
  e ← read ix
  es ← collect read ixs
  ok (elim e [ none ↦ es | some x ↦ x ∷ es ])

-- The entries among what each instruction says.
abbrev pub said : {E : Type 0} → List (Option E) → List E
said [] = []
said (none ∷ es) = said es
said (some e ∷ es) = e ∷ said es

said-cons :
    {E : Type 0} (o : Option E) (os : List (Option E)) (es : List E)
    → said os ≡ es
    → said (o ∷ os) ≡ elim o [ none ↦ es | some e ↦ e ∷ es ]
said-cons none os es h = h
said-cons (some e) os es h = ap (λ es. e ∷ es) h

-- The reading of decoded bytes.
Decoded-iff :
    {I E : Type 0} (d : Option I) (read described : I → Result (Option E)) (entry : Option E)
    → ((i : I) → read i ≡ described i)
    → (elim d [ none ↦ ok none | some i ↦ read i ] ≡ ok entry) ↔ Decoded d described entry
Decoded-iff none read described entry same =
    (λ h. inl (refl, sym (ok-injective h)), λ q. ground arith)
Decoded-iff (some i) read described entry same = (
  λ h. inr (i, refl, sym (same i) ∙ h),
  λ q. elim q [
    | inl (e, _) ↦ ground arith
    | inr (j, e, h) ↦ same i ∙ subst (λ k. described k ≡ ok entry) (sym (some-injective i j e)) h
  ],
)

-- A test that decides a proposition, between two results.
test_iff :
    {A P : Type 0} (c : Bool) (r s : Result A)
    → (c ≡ true) ↔ P
    → (a : A) → ((if c then r else s) ≡ ok a) ↔ ((P × (r ≡ ok a)) ⊎ ((¬ P) × (s ≡ ok a)))
test_iff true r s (f, g) a =
    (λ h. inl (f refl, h), λ q. elim q [ inl (_, h) ↦ h | inr (n, _) ↦ absurd (n (f refl)) ])
test_iff false r s (f, g) a = (
  λ h. inr (λ p. (let bad = g p in cc), h),
  λ q. elim q [ inl (p, _) ↦ (let bad = g p in cc) | inr (_, h) ↦ h ],
)

collect-AllPairs :
    {E : Type 0} (read : Instruction → Result (Option E)) (ixs : List Instruction) (es : List E)
    → collect read ixs ≡ ok es
    → (os : List (Option E)) × AllPairs (λ ix o. read ix ≡ ok o) ixs os × (said os ≡ es)
unfolding collect
collect-AllPairs read [] es h = ([], tt, ok-injective h)
collect-AllPairs read (ix ∷ ixs) es h =
    let (o, e, h₁) = >>=-eq-ok (read ix) _ {b = es} h in
    let (rest, e', h₂) = >>=-eq-ok (collect read ixs) _ {b = es} h₁ in
    let (os, pairs, same) = collect-AllPairs read ixs rest e' in
    (o ∷ os, (e, pairs), said-cons o os rest same ∙ ok-injective h₂)

module _ (p : Programs) where
  read_system_iff :
      (ix : Instruction) (entry : Option SystemEntry)
      → (read_system p ix ≡ ok entry) ↔ SaysSystem p ix entry
  unfolding read_system
  read_system_iff ix entry =
      let arms =
        Decoded-iff (p.deserialize_system ix.payload) (system_entry ix)
          (λ i. described_system i (pubkeys ix.accounts)) entry
          (λ i. system_entry-described ix.program_id ix.payload i ix.accounts) in
      iff_trans (test_iff (ix.program_id == p.system_program) _ _ (nat_eq.equal_iff _ _) entry) (
        (λ q. elim q [
          | inl (e, h) ↦ inr (e, arms.0 h)
          | inr (n, h) ↦ inl (n, sym (ok-injective h))
        ]),
        (λ q. elim q [ inl (n, e) ↦ inr (n, ap ok (sym e)) | inr (e, d) ↦ inl (e, arms.1 d) ]),
      )

  read_token_iff :
      (ix : Instruction) (entry : Option SplEntry)
      → (read_token p ix ≡ ok entry) ↔ SaysToken p ix entry
  unfolding read_token
  read_token_iff ix entry =
      let spl =
        Decoded-iff (p.unpack_spl ix.payload) (spl_token_entry ix)
          (λ i. described_token false i (pubkeys ix.accounts)) entry
          (λ i. spl_token_entry-described ix.program_id ix.payload i ix.accounts) in
      let token_2022 =
        Decoded-iff (p.unpack_2022 ix.payload) (token_2022_entry ix)
          (λ i. described_token true i (pubkeys ix.accounts)) entry
          (λ i. token_2022_entry-described ix.program_id ix.payload i ix.accounts) in
      let inner = test_iff (ix.program_id == p.spl_token_2022) _ _ (nat_eq.equal_iff _ _) entry in
      iff_trans (test_iff (ix.program_id == p.spl_token) _ _ (nat_eq.equal_iff _ _) entry) (
        (λ q. elim q [
          | inl (e, h) ↦ inr (inl (e, spl.0 h))
          | inr (n, h) ↦ elim (inner.0 h) [
            | inl (e, k) ↦ inr (inr (e, token_2022.0 k))
            | inr (m, k) ↦ inl (n, m, sym (ok-injective k))
          ]
        ]),
        (λ q. elim q [
          | inl (n, m, e) ↦ inr (n, inner.1 (inr (m, ap ok (sym e))))
          | inr (inl (e, d)) ↦ inl (e, spl.1 d)
          | inr (inr (e, d)) ↦
              inr (λ f. p.spl-ne-2022 (sym f ∙ e), inner.1 (inl (e, token_2022.1 d)))
        ]),
      )

  parse_system_from-collect :
      (ixs : List Instruction) (t : SystemTable)
      → parse_system_from p ixs t ≡ (collect (read_system p) ixs >>= λ es. ok (push_all es t))
  unfolding parse_system_from collect push_all
  parse_system_from-collect [] t = refl
  parse_system_from-collect (ix ∷ ixs) t = elim (Result-cases (read_system p ix)) [
    | inl (e, q) ↦ rw q
    | inr (none, q) ↦ rw q (ground (arith, parse_system_from-collect ixs t))
    | inr (some (k, v), q) ↦ rw q (ground (arith, parse_system_from-collect ixs (push k v t)))
  ]

  parse_token_from-collect :
      (ixs : List Instruction) (t : SplTable)
      → parse_token_from p ixs t ≡ (collect (read_token p) ixs >>= λ es. ok (push_all es t))
  unfolding parse_token_from collect push_all
  parse_token_from-collect [] t = refl
  parse_token_from-collect (ix ∷ ixs) t = elim (Result-cases (read_token p ix)) [
    | inl (e, q) ↦ rw q
    | inr (none, q) ↦ rw q (ground (arith, parse_token_from-collect ixs t))
    | inr (some (k, v), q) ↦ rw q (ground (arith, parse_token_from-collect ixs (push k v t)))
  ]

  pub parse_system_instructions-eq :
      (ixs : List Instruction)
      → parse_system_instructions p ixs
        ≡ (collect (read_system p) ixs >>= λ es. ok (push_all es []))
  unfolding parse_system_instructions
  parse_system_instructions-eq ixs = parse_system_from-collect ixs []

  -- When the parser of System instructions succeeds, every instruction is well formed, and the
  -- table holds under each kind exactly the values of that kind that the instructions say, in the
  -- order of the instructions.
  parse_system_instructions-select :
      (ixs : List Instruction) {t : SystemTable}
      → parse_system_instructions p ixs ≡ ok t
      → (es : List (Option SystemEntry)) × AllPairs (SaysSystem p) ixs es
        × ((kind : ParsedSystemType) → get_or_empty kind t ≡ select kind (said es))
  parse_system_instructions-select ixs {t} h =
      let (es, q, r) =
        >>=-eq-ok (collect (read_system p) ixs) (λ es. ok (push_all es [])) {b = t}
          (sym (parse_system_instructions-eq ixs) ∙ h) in
      let (os, pairs, same) = collect-AllPairs (read_system p) ixs es q in
      (
        os,
        (AllPairs-iff (read_system_iff) ixs os).0 pairs,
        λ kind.
            ap (get_or_empty kind) (ok-injective (sym r))
            ∙ get_or_empty-push_all kind es []
            ∙ ap (select kind) (sym same),
      )

  pub parse_token_instructions-eq :
      (ixs : List Instruction)
      → parse_token_instructions p ixs ≡ (collect (read_token p) ixs >>= λ es. ok (push_all es []))
  unfolding parse_token_instructions
  parse_token_instructions-eq ixs = parse_token_from-collect ixs []

  -- When the parser of token instructions succeeds, every instruction is well formed, and the table
  -- holds under each kind exactly the values of that kind that the instructions say, in the order
  -- of the instructions.
  parse_token_instructions-select :
      (ixs : List Instruction) {t : SplTable}
      → parse_token_instructions p ixs ≡ ok t
      → (es : List (Option SplEntry)) × AllPairs (SaysToken p) ixs es
        × ((kind : ParsedSplType) → get_or_empty kind t ≡ select kind (said es))
  parse_token_instructions-select ixs {t} h =
      let (es, q, r) =
        >>=-eq-ok (collect (read_token p) ixs) (λ es. ok (push_all es [])) {b = t}
          (sym (parse_token_instructions-eq ixs) ∙ h) in
      let (os, pairs, same) = collect-AllPairs (read_token p) ixs es q in
      (
        os,
        (AllPairs-iff (read_token_iff) ixs os).0 pairs,
        λ kind.
            ap (get_or_empty kind) (ok-injective (sym r))
            ∙ get_or_empty-push_all kind es []
            ∙ ap (select kind) (sym same),
      )

  -- When both parsers succeed, every System instruction whose bytes decode says the kind, the
  -- amounts and the accounts that an independent description of the System program gives for it,
  -- every such instruction of either token program what the description of the token programs
  -- gives, with the accounts by their places in the programs' instructions, and all others say
  -- nothing; each table holds under each kind exactly the values of that kind that the instructions
  -- say, in the order of the instructions.
  pub parse-Says :
      (ixs : List Instruction) {t : SystemTable} {u : SplTable}
      → parse_system_instructions p ixs ≡ ok t
      → parse_token_instructions p ixs ≡ ok u
      → ((es : List (Option SystemEntry)) × AllPairs (SaysSystem p) ixs es
          × ((kind : ParsedSystemType) → get_or_empty kind t ≡ select kind (said es)))
        × ((es : List (Option SplEntry)) × AllPairs (SaysToken p) ixs es
            × ((kind : ParsedSplType) → get_or_empty kind u ≡ select kind (said es)))
  parse-Says ixs h k =
      (parse_system_instructions-select ixs h, parse_token_instructions-select ixs k)
