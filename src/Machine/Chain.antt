-- ===== src/Machine/Chain.antt =====
-- A disk given as a chain of descriptor sets: `chainArgs` of machine/machine.go, its `-blockdev`
-- nodes and their JSON.
pub mod Names
pub mod Nodes
pub mod Opens
pub mod Writable
use mathlib.Core.List.{flat_map, reverse}
use spin_machine.Common.{
  ℕ, zero, suc, ◌+◌, ◌-◌, ◌/◌, ◌%◌, Text, lit, ◌<>◌, Bool, true, false, not, ◌&&◌, ◌||◌, ◌==◌, ltb,
  List, [], ◌∷◌, Option, none, some, is_empty, text_eq, if◌then◌else◌,
}
use spin_machine.Common.Numeral.{decimal, itoa}
use spin_machine.Machine.Types.{Image, Disk}

-- `Backing` of a format node: absent, JSON null, or a node's name.
pub data Backing : Type 0 where
  absent null : Backing
  named : Text → Backing

-- `fileNode`. An empty `locking` and an absent `cache` are left out of the JSON.
pub record FileNode : Type 0 where
  pub driver : Text
  pub node_name : Text
  pub filename : Text
  pub aio : Text
  pub discard : Text
  pub read_only : Bool
  pub drop_cache : Bool
  pub locking : Text
  pub cache : Option Bool

pub record FormatNode : Type 0 where
  pub driver : Text
  pub node_name : Text
  pub file : Text
  pub read_only : Bool
  pub discard : Text
  pub backing : Backing

hex_digit : ℕ → ℕ
hex_digit d = if ltb d 10 then b'0' + d else b'a' + (d - 10)

-- A byte in a JSON string, as `json.Marshal` writes it. A byte beyond ASCII is copied.
escape_byte : ℕ → Text
unfolding hex_digit
escape_byte c =
    if c == b'"' || c == b'\\'
    then b'\\' ∷ c ∷ []
    else if c == 8
    then lit "\\b"
    else if c == 12
    then lit "\\f"
    else if c == 10
    then lit "\\n"
    else if c == 13
    then lit "\\r"
    else if c == 9
    then lit "\\t"
    else if ltb c 32 || c == b'<' || c == b'>' || c == b'&'
    then lit "\\u00" <> hex_digit (c / 16) ∷ hex_digit (c % 16) ∷ []
    else c ∷ []

unfoldable pub json_string : Text → Text
unfolding flat_map escape_byte
json_string s = lit "\"" <> flat_map escape_byte s <> lit "\""

json_bool : Bool → Text
json_bool true = lit "true"
json_bool false = lit "false"

json_cache : Option Bool → Text
unfolding json_bool
json_cache none = []
json_cache (some direct) = lit ",\"cache\":{\"direct\":" <> json_bool direct <> lit "}"

-- `encodeNode` of a file node.
unfoldable pub encode_file : FileNode → Text
unfolding json_string json_bool json_cache
encode_file n =
    lit "{\"driver\":"
    <> json_string n.driver
    <> lit ",\"node-name\":"
    <> json_string n.node_name
    <> lit ",\"filename\":"
    <> json_string n.filename
    <> lit ",\"aio\":"
    <> json_string n.aio
    <> lit ",\"discard\":"
    <> json_string n.discard
    <> lit ",\"read-only\":"
    <> json_bool n.read_only
    <> lit ",\"drop-cache\":"
    <> json_bool n.drop_cache
    <> (if is_empty n.locking then [] else lit ",\"locking\":" <> json_string n.locking)
    <> json_cache n.cache
    <> lit "}"

json_backing : Backing → Text
json_backing absent = []
json_backing null = lit ",\"backing\":null"
json_backing (named n) = lit ",\"backing\":\"" <> n <> lit "\""

-- `encodeNode` of a format node.
unfoldable pub encode_format : FormatNode → Text
unfolding json_string json_bool json_backing
encode_format n =
    lit "{\"driver\":"
    <> json_string n.driver
    <> lit ",\"node-name\":"
    <> json_string n.node_name
    <> lit ",\"file\":"
    <> json_string n.file
    <> lit ",\"read-only\":"
    <> json_bool n.read_only
    <> lit ",\"discard\":"
    <> json_string n.discard
    <> json_backing n.backing
    <> lit "}"

-- `nodeName`: image `j` of disk `i`.
unfoldable pub node_name : ℕ → ℕ → Text
node_name i zero = lit "blk" <> decimal i
node_name i (suc j) = lit "blk" <> decimal i <> lit "-" <> decimal (suc j)

-- The file node of image `j`.
unfoldable pub file_node : Disk → ℕ → ℕ → Image → FileNode
file_node d i j img = record {
  driver = lit "file";
  node_name = node_name i j <> lit "-file";
  filename = lit "/dev/fdset/" <> itoa img.fd_set;
  aio = lit "io_uring";
  discard = lit "unmap";
  read_only = d.readonly || not (j == 0);
  drop_cache = false;
  locking = if j == 0 && d.locking then lit "on" else [];
  cache = if d.direct_over_backing then some (j == 0) else none;
}

-- The format node of image `j`; the flag says that it is the last of its chain.
unfoldable pub format_node : Disk → ℕ → ℕ → Image → Bool → FormatNode
format_node d i j img last = record {
  driver = img.format;
  node_name = node_name i j;
  file = node_name i j <> lit "-file";
  read_only = d.readonly || not (j == 0);
  discard = lit "unmap";
  backing =
      if not last
      then named (node_name i (suc j))
      else if not (text_eq img.format (lit "raw"))
      then null
      else absent;
}

abbrev pub NodePair : Type 0
NodePair = FileNode × FormatNode

-- The nodes of a chain from image `j` on, the top first.
unfoldable pub chain_nodes : Disk → ℕ → ℕ → List Image → List NodePair
unfolding file_node format_node
chain_nodes d i j [] = []
chain_nodes d i j (img ∷ rest) =
    (file_node d i j img, format_node d i j img (is_empty rest)) ∷ chain_nodes d i (suc j) rest

unfoldable pub pair_args : NodePair → List Text
pair_args (file, format) =
    lit "-blockdev" ∷ encode_file file ∷ lit "-blockdev" ∷ encode_format format ∷ []

-- `chainArgs`: the loop goes from the base up.
unfoldable pub chain_args : Disk → ℕ → List Text
unfolding chain_nodes pair_args flat_map
chain_args d i = flat_map pair_args (reverse (chain_nodes d i 0 d.chain))
