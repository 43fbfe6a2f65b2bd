-- ===== src/Payments/Tests.antt =====
-- Payments over natural numbers in place of floats: a fee constant `a / 10 ^ b` is then 0 or more.
use vibranium_quadsquad.Base.{
  ℕ, ◌<◌, ◌≤◌, ◌⊎◌, none, String, some, [], ◌∷◌, ◌++◌, ◌≡◌, refl, if◌then◌else◌, str_eq,
}
use vibranium_quadsquad.Base.Float.{nat_float}
use vibranium_quadsquad.Payments.{
  Transaction, route_too_short, pending, success, already_processed, create_transaction,
  process_transaction, process_transaction_with_route, reset_transaction_for_retry, get_transaction,
  ids_of,
}
use vibranium_quadsquad.Payments.Quote.{IsQuoted, create_transaction-stores}
use vibranium_quadsquad.Payments.Run.Hops.{Leaves}
use vibranium_quadsquad.Payments.Run.{
  process_transaction-Leaves, process_transaction_with_route-Leaves, process_transaction-twice,
  reset-ready,
}
use vibranium_quadsquad.Payments.Samples.{payment, store, paid_store, calm}

create_transaction-stores_example :
    let r =
      create_transaction nat_float store "t2" 9 "u1" 500 "USD" "EUR"
        ("USA" ∷ "DEU" ∷ [])
        ("DEU" ∷ []) in
    ((2 < 2) × (r ≡ (some route_too_short, store)))
    ⊎ ((2 ≤ 2)
        × (r.0 ≡ none)
        × ((t : Transaction ℕ) × IsQuoted nat_float store.fee_config "t2" "u1" 9 500 "USD" "EUR"
              ("USA" ∷ "DEU" ∷ [])
              ("DEU" ∷ [])
              t
            × ((j : String)
                → get_transaction nat_float r.1 j
                  ≡ (if str_eq "t2" j then some t else get_transaction nat_float store j)))
        × ((u : String)
            → ids_of nat_float r.1 u ≡ (
                if str_eq "u1" u
                then ids_of nat_float store "u1" ++ "t2" ∷ []
                else ids_of nat_float store u)))
create_transaction-stores_example =
    create_transaction-stores nat_float store "t2" 9 "u1" 500 "USD" "EUR" ("USA" ∷ "DEU" ∷ [])
      ("DEU" ∷ [])

process_transaction-Leaves_example :
    Leaves nat_float "t1" [] 2000 0 calm 2 981 store
      (process_transaction nat_float store "t1" 8 [] 0 calm)
process_transaction-Leaves_example =
    process_transaction-Leaves nat_float store "t1" 8 [] 0 calm payment refl refl refl refl

process_transaction_with_route-Leaves_example :
    Leaves nat_float "t1" [] 2000 0 calm 1 981 store
      (process_transaction_with_route nat_float store "t1" 8 ("USA" ∷ "IND" ∷ []) [] 0 calm)
process_transaction_with_route-Leaves_example =
    process_transaction_with_route-Leaves nat_float store "t1" 8 [] 0 calm payment refl
      ("USA" ∷ "IND" ∷ []) refl refl refl

process_transaction-twice_example :
    let s' = (process_transaction nat_float store "t1" 8 [] 0 calm).1 in
    process_transaction nat_float s' "t1" 9 [] 5 calm ≡ (some already_processed, s')
process_transaction-twice_example =
    process_transaction-twice nat_float store "t1" 8 [] 0 calm payment refl refl refl refl 9 [] 5
      calm

reset-ready_example :
    (t' : Transaction ℕ) × ((j : String)
      → get_transaction nat_float (reset_transaction_for_retry nat_float paid_store "t1") j
        ≡ (if str_eq "t1" j then some t' else get_transaction nat_float paid_store j))
    × (t'.status ≡ pending)
    × (t'.hops_completed ≡ 0)
    × (t'.hop_results ≡ [])
    × (t'.amount ≡ 1000)
    × (t'.total_fees ≡ 19)
reset-ready_example =
    reset-ready nat_float paid_store "t1" 8 [] 0 calm (record payment { status = success }) refl
