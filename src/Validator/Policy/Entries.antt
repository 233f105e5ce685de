-- ===== src/Validator/Policy/Entries.antt =====
-- The parsers file each value under its own kind.
use solus_protocol.Base.{◌≡◌, subst, Option, none, some, List, [], ◌∷◌, nat_eq, All, arith}
use solus_protocol.Error.{Result, ok, err, ◌>>=◌}
use solus_protocol.Instruction.{Instruction, Programs, SystemInstruction, TokenInstruction}
use solus_protocol.Parse.{
  SystemEntry, SplEntry, read_system, read_token, system_entry, spl_token_entry, token_2022_entry,
  system_type_eq, spl_type_eq,
}
use solus_protocol.Parse.Content.{collect}
use solus_protocol.Validator.Policy.{system_kind, spl_kind}

-- Filed under its kind, if anything is filed.
abbrev pub FiledBy : {K D : Type 0} → (D → K) → Option (K × D) → Type 0
FiledBy kind none = Unit
FiledBy kind (some (k, d)) = k ≡ kind d

abbrev Yields : {A : Type 0} → (A → Type 0) → Result A → Type 0
Yields P (ok a) = P a
Yields P (err e) = Unit

Yields-bind :
    {A B : Type 0} (P : B → Type 0) (m : Result A) (f : A → Result B)
    → ((a : A) → Yields P (f a))
    → Yields P (m >>= f)
Yields-bind P (ok a) f h = h a
Yields-bind P (err e) f h = tt

system_entry-FiledBy :
    (ix : Instruction) (i : SystemInstruction) → Yields (FiledBy system_kind) (system_entry ix i)
unfolding system_entry
system_entry-FiledBy ix (SystemInstruction.assign o) = ground arith
system_entry-FiledBy ix (SystemInstruction.transfer l) = ground arith
system_entry-FiledBy ix _ = ground arith

spl_token_entry-FiledBy :
    (ix : Instruction) (i : TokenInstruction) → Yields (FiledBy spl_kind) (spl_token_entry ix i)
unfolding spl_token_entry
spl_token_entry-FiledBy ix (TokenInstruction.burn n) = ground arith
spl_token_entry-FiledBy ix _ = ground arith

token_2022_entry-FiledBy :
    (ix : Instruction) (i : TokenInstruction) → Yields (FiledBy spl_kind) (token_2022_entry ix i)
unfolding token_2022_entry
token_2022_entry-FiledBy ix (TokenInstruction.burn n) = ground arith
token_2022_entry-FiledBy ix _ = ground arith

collect-FiledBy :
    {K D : Type 0} (kind : D → K) (read : Instruction → Result (Option (K × D)))
    → ((ix : Instruction) → Yields (FiledBy kind) (read ix))
    → (ixs : List Instruction) → Yields (All (λ e. e.0 ≡ kind e.1)) (collect read ixs)
unfolding collect
collect-FiledBy kind read h [] = tt
collect-FiledBy kind read h (ix ∷ ixs) = ground (arith, h ix, collect-FiledBy kind read h ixs)

module _ (p : Programs) where
  read_system-FiledBy : (ix : Instruction) → Yields (FiledBy system_kind) (read_system p ix)
  unfolding read_system
  read_system-FiledBy ix = grind (arith, system_entry-FiledBy)

  read_token-FiledBy : (ix : Instruction) → Yields (FiledBy spl_kind) (read_token p ix)
  unfolding read_token
  read_token-FiledBy ix = grind (arith, spl_token_entry-FiledBy, token_2022_entry-FiledBy)

  pub system_entries-filed :
      (ixs : List Instruction) (es : List SystemEntry)
      → collect (read_system p) ixs ≡ ok es
      → All (λ e. e.0 ≡ system_kind e.1) es
  system_entries-filed ixs es h =
      subst (Yields (All (λ (e : SystemEntry). e.0 ≡ system_kind e.1))) h
        (collect-FiledBy system_kind (read_system p) read_system-FiledBy ixs)

  pub spl_entries-filed :
      (ixs : List Instruction) (es : List SplEntry)
      → collect (read_token p) ixs ≡ ok es
      → All (λ e. e.0 ≡ spl_kind e.1) es
  spl_entries-filed ixs es h =
      subst (Yields (All (λ (e : SplEntry). e.0 ≡ spl_kind e.1))) h
        (collect-FiledBy spl_kind (read_token p) read_token-FiledBy ixs)
