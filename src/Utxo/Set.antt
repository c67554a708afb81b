-- ===== src/Utxo/Set.antt =====
-- `UtxoSet` and its plain operations (rusty-core/src/consensus/utxo_set.rs).
use rusty_coin.Common.{true, false, ℕ, Bool, List, [], ◌∷◌, Option, length, if◌then◌else◌}
use rusty_coin.Common.HashMap.{HashMap, get, insert, remove, contains_key}
use rusty_coin.Types.Tx.{TxInput, OutPoint-discrete, Hash, OutPoint, Utxo, outpoint_key}

abbrev pub UtxoSet : Type 0
UtxoSet = HashMap OutPoint Utxo

unfoldable pub new : UtxoSet
new = []

unfoldable pub add_utxo : OutPoint → Utxo → UtxoSet → UtxoSet
add_utxo outpoint utxo s = insert outpoint utxo s

-- The set that is left; the removed entry is `get_utxo outpoint s`.
unfoldable pub remove_utxo : OutPoint → UtxoSet → UtxoSet
remove_utxo outpoint s = remove outpoint s

unfoldable pub get_utxo : OutPoint → UtxoSet → Option Utxo
get_utxo outpoint s = get outpoint s

unfoldable pub contains_utxo : OutPoint → UtxoSet → Bool
contains_utxo outpoint s = contains_key outpoint s

unfoldable pub len : UtxoSet → ℕ
len s = length s

-- `TicketId::from` wraps the hash.
unfoldable pub get_used_inputs_as_ticket_ids : UtxoSet → List Hash
get_used_inputs_as_ticket_ids [] = []
get_used_inputs_as_ticket_ids ((outpoint, utxo) ∷ s) =
    let rest = get_used_inputs_as_ticket_ids s in
    if utxo.is_coinbase then rest else outpoint.txid ∷ rest

-- One of the inputs names the outpoint.
unfoldable pub spends : List TxInput → OutPoint → Bool
spends [] p = false
spends (input ∷ inputs) p =
    let rest = spends inputs p in
    elim (OutPoint-discrete input.previous_output p) [ yes e ↦ true | no e ↦ rest ]
