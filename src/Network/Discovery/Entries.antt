-- ===== src/Network/Discovery/Entries.antt =====
-- The message of `sendNetwork`, and how `addServerFromMessage` takes it apart.
use tek.Prelude.{
  ℕ, ◌+◌, ◌-◌, ◌%◌, ◌^◌, ◌≤◌, ◌<◌, ◌≡◌, refl, sym, ap, ◌∙◌, some, List, [], ◌∷◌, ◌++◌, arith,
  length, drop, length-append, append-nil, append_assoc, length-drop, le→leb, take-append,
  drop-append,
}
use tek.Bytes.{IsText, block, fetch, le_bytes, le_value, write_at}
use tek.Bytes.Buffer.{drop-append_add}
use tek.Bytes.Text.{c_string-append}
use tek.Bytes.Words.{fetch-append, le_value-le_bytes, length-le_bytes}
use tek.Network.Clients.{ClientInfo}
use tek.Network.Clients.Ring.{Member}
use tek.Network.Clients.Search.{IsAddress}
use tek.Network.Discovery.{read_entry, write_entry}

-- A client as `sendNetwork` tells it: a host name of fewer than 65529 characters.
pub record IsKnown (n : Member) : Type 0 where
  pub address : IsAddress n.address
  pub short : length address.name + 7 < 2 ^ 16
  pub api : n.api < 2 ^ 32
  pub mining : n.mining < 2 ^ 32

-- The bytes of an address, an api and a mining status, in front of others.
abbrev pub entry_of : (name port : List ℕ) (api mining : ℕ) → List ℕ → List ℕ
entry_of name port api mining rest =
    le_bytes 2 (length name + 7)
    ++ (block name ++ (port ++ (le_bytes 4 api ++ (le_bytes 4 mining ++ rest))))

skip_lem :
    (name port rest : List ℕ)
    → length port ≡ 6
    → drop (length name + 7) (block name ++ (port ++ rest)) ≡ rest
skip_lem name port rest six =
    let size : length name + 7 ≡ length (block name) + 6 =
      omega (arith, length-append name (0 ∷ [])) in
    rw (size, drop-append_add 6 (block name) (port ++ rest), sym six) (drop-append port rest)

module _ (name port : List ℕ) (api mining : ℕ) (rest : List ℕ) where
  pub read_entry_lem :
      length name + 7 < 2 ^ 16
      → length port ≡ 6
      → api < 2 ^ 32
      → mining < 2 ^ 32
      → read_entry (entry_of name port api mining rest)
        ≡ some (record {
          address = record { hostname = some (block name); port = port };
          api = api;
          mining = mining;
          taken = 17 + length name;
        })
  unfolding read_entry
  read_entry_lem short six a m =
      let behind = le_bytes 4 api ++ (le_bytes 4 mining ++ rest) in
      let size_lem : le_value (le_bytes 2 (length name + 7)) ≡ length name + 7 =
        le_value-le_bytes 2 _ (omega (arith, short)) in
      let host_size : (length name + 7 + 2 ^ 16 - 5 - 1) % 2 ^ 16 ≡ length name + 1 =
        omega (arith, short) in
      let taken : 2 + (length name + 7) + 4 + 4 ≡ 17 + length name = omega arith in
      let block_size : length (block name) ≡ length name + 1 =
        omega (arith, length-append name (0 ∷ [])) in
      let api_lem : le_value (le_bytes 4 api) ≡ api = le_value-le_bytes 4 _ (omega (arith, a)) in
      let mining_lem : le_value (le_bytes 4 mining) ≡ mining =
        le_value-le_bytes 4 _ (omega (arith, m)) in
      rw (
        fetch-append 2 (le_bytes 2 (length name + 7)) (block name ++ (port ++ behind))
            (length-le_bytes 2 _),
        size_lem,
        host_size,
        fetch-append (length name + 1) (block name) (port ++ behind) block_size,
        fetch-append 6 port behind six,
        skip_lem name port behind six,
        fetch-append 4 (le_bytes 4 api) (le_bytes 4 mining ++ rest) (length-le_bytes 4 api),
        fetch-append 4 (le_bytes 4 mining) rest (length-le_bytes 4 mining),
        api_lem,
        mining_lem,
        taken,
      )

pub entry_of-append :
    (name port : List ℕ) (api mining : ℕ) (rest : List ℕ)
    → entry_of name port api mining [] ++ rest ≡ entry_of name port api mining rest
entry_of-append name port api mining rest = simp (append_assoc, append-nil)

pub length-entry_of :
    (name port : List ℕ) (api mining : ℕ)
    → length port ≡ 6
    → length (entry_of name port api mining []) ≡ 17 + length name
length-entry_of name port api mining six =
    simp (length-append, length-le_bytes, append-nil, six) (omega arith)

-- A write at the end of `text`.
write_step :
    (offset : ℕ) (text bytes tail : List ℕ)
    → offset ≡ length text
    → length bytes ≤ length tail
    → (tail' : List ℕ) × (write_at offset bytes (text ++ tail) ≡ some ((text ++ bytes) ++ tail'))
      × (length bytes + length tail' ≡ length tail)
unfolding write_at
write_step offset text bytes tail at fits =
    let inside : length text + length bytes ≤ length (text ++ tail) =
      omega (arith, length-append text tail) in
    (
      drop (length bytes) tail,
      rw (at, le→leb _ _ inside, take-append, drop-append_add (length bytes) text tail)
          (ap some (sym (append_assoc text bytes _))),
      omega (arith, length-drop (length bytes) tail),
    )

-- `write_entry`, when it is known what its writes do.
write_entry_run :
    (c : ClientInfo) (name : List ℕ) (offset : ℕ) (buf buf1 buf2 buf3 buf4 buf5 : List ℕ)
    → IsText name
    → c.address.hostname ≡ some (block name)
    → length name + 7 < 2 ^ 16
    → length c.address.port ≡ 6
    → write_at offset (le_bytes 2 (length name + 7)) buf ≡ some buf1
    → write_at (offset + 2) (block name) buf1 ≡ some buf2
    → write_at (offset + 2 + (length name + 1)) c.address.port buf2 ≡ some buf3
    → write_at (offset + 2 + (length name + 1) + 5 + 1) (le_bytes 4 c.api) buf3 ≡ some buf4
    → write_at (offset + 2 + (length name + 1) + 5 + 1 + 4) (le_bytes 4 c.mining) buf4 ≡ some buf5
    → write_entry c offset buf ≡ some (offset + 2 + (length name + 1) + 5 + 1 + 4 + 4, buf5)
unfolding write_entry
write_entry_run c name offset buf buf1 buf2 buf3 buf4 buf5 is_text host short six w1 w2 w3 w4 w5 =
    let size_host : (length name + 1) % 2 ^ 16 ≡ length name + 1 = omega (arith, short) in
    let size_lem : (length name + 1 + 5 + 1) % 2 ^ 16 ≡ length name + 7 = omega (arith, short) in
    let block_size : length (block name) ≡ length name + 1 =
      omega (arith, length-append name (0 ∷ [])) in
    let fetch_host : fetch (length name + 1) (block name) ≡ some (block name, []) =
      rw (append-nil (block name)) at (fetch-append (length name + 1) (block name) [] block_size) in
    let fetch_port : fetch 6 c.address.port ≡ some (c.address.port, []) =
      rw (append-nil c.address.port) at (fetch-append 6 c.address.port [] six) in
    rw (
      host,
      c_string-append name [] is_text,
      size_host,
      size_lem,
      w1,
      fetch_host,
      w2,
      fetch_port,
      w3,
      w4,
      w5,
    )

pair_eq : {a b : ℕ} {x y : List ℕ} → a ≡ b → x ≡ y → Path (ℕ × List ℕ) (a, x) (b, y)
pair_eq e f = cc

regroup :
    (text a b p d e tail : List ℕ)
    → (((((text ++ a) ++ b) ++ p) ++ d) ++ e) ++ tail
      ≡ (text ++ (a ++ (b ++ (p ++ (d ++ (e ++ [])))))) ++ tail
regroup text a b p d e tail = simp (append_assoc, append-nil)

module _ (c : ClientInfo) (name : List ℕ) (text tail : List ℕ) where
  -- The five writes of a client.
  pub write_entry_lem :
      IsText name
      → c.address.hostname ≡ some (block name)
      → length name + 7 < 2 ^ 16
      → length c.address.port ≡ 6
      → 17 + length name ≤ length tail
      → (tail' : List ℕ) × (write_entry c (length text) (text ++ tail)
          ≡ some (
            length text + 17 + length name,
            (text ++ entry_of name c.address.port c.api c.mining []) ++ tail',
          ))
        × (17 + length name + length tail' ≡ length tail)
  write_entry_lem is_text host short six fits =
      let block_size : length (block name) ≡ length name + 1 =
        omega (arith, length-append name (0 ∷ [])) in
      let bytes1 = le_bytes 2 (length name + 7) in
      let len1 = length-le_bytes 2 (length name + 7) in
      let len4 = length-le_bytes 4 c.api in
      let len5 = length-le_bytes 4 c.mining in
      let (tail1, write1, left1) =
        write_step (length text) text bytes1 tail refl (omega (arith, len1, fits)) in
      let text1 = text ++ bytes1 in
      let at1 : length text + 2 ≡ length text1 = omega (arith, length-append text bytes1, len1) in
      let (tail2, write2, left2) =
        write_step (length text + 2) text1 (block name) tail1 at1
          (omega (arith, len1, left1, block_size, fits)) in
      let text2 = text1 ++ block name in
      let at2 : length text + 2 + (length name + 1) ≡ length text2 =
        omega (arith, at1, length-append text1 (block name), block_size) in
      let (tail3, write3, left3) =
        write_step _ text2 c.address.port tail2 at2
          (omega (arith, len1, left1, left2, block_size, fits, six)) in
      let text3 = text2 ++ c.address.port in
      let at3 : length text + 2 + (length name + 1) + 5 + 1 ≡ length text3 =
        omega (arith, at2, length-append text2 c.address.port, six) in
      let (tail4, write4, left4) =
        write_step _ text3 (le_bytes 4 c.api) tail3 at3
          (omega (arith, len1, len4, left1, left2, left3, block_size, fits, six)) in
      let text4 = text3 ++ le_bytes 4 c.api in
      let at4 : length text + 2 + (length name + 1) + 5 + 1 + 4 ≡ length text4 =
        omega (arith, at3, length-append text3 (le_bytes 4 c.api), len4) in
      let (tail5, write5, left5) =
        write_step _ text4 (le_bytes 4 c.mining) tail4 at4
          (omega (arith, len1, len4, len5, left1, left2, left3, left4, block_size, fits, six)) in
      (
        tail5,
        write_entry_run c name (length text) (text ++ tail) (text1 ++ tail1) (text2 ++ tail2)
              (text3 ++ tail3) (text4 ++ tail4) ((text4 ++ le_bytes 4 c.mining) ++ tail5) is_text
              host short six write1 write2 write3 write4 write5
            ∙ ap some (
                pair_eq (omega arith) (
                  regroup text bytes1 (block name) c.address.port (le_bytes 4 c.api)
                    (le_bytes 4 c.mining) tail5)),
        omega (arith, len1, len4, len5, left1, left2, left3, left4, left5, block_size, six),
      )
