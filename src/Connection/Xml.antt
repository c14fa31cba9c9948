-- ===== src/Connection/Xml.antt =====
-- The part of TinyXML's documented interface that es3/connection.cpp uses. The parser is a parameter
-- of the modules that read replies; a document is the list of its nodes.
use extremes.Base.{Bool, true, false, Option, none, some, Bytes, bytes_key, ◌=k◌, if◌then◌else◌}

-- `TiXmlNode`, by `ToText()`, `Value()` and its children; the second type stands for a node with its
-- later siblings, and `no_nodes` for a null pointer to one.
mutual
  pub data Node : Type 0 where
    node : Bool → Bytes → Nodes → Node

  pub data Nodes : Type 0 where
    no_nodes : Nodes
    sibling : Node → Nodes → Nodes

abbrev pub value_of : Node → Bytes
value_of (node is_text value children) = value

abbrev pub children_of : Node → Nodes
children_of (node is_text value children) = children

-- From the first node on that has this value.
unfoldable pub named : Bytes → Nodes → Nodes
named name no_nodes = no_nodes
named name (sibling n ns) = if value_of n =k name then sibling n ns else named name ns

-- `FirstChild(name)` on a node that may be null; on a document, `named` itself.
unfoldable pub first_child : Bytes → Nodes → Nodes
unfolding named
first_child name no_nodes = no_nodes
first_child name (sibling n ns) = named name (children_of n)

-- `FirstChild()`, and the text that it holds, if it is a text.
unfoldable pub first_text : Nodes → Option Bytes
first_text no_nodes = none
first_text (sibling (node is_text value no_nodes) ns) = none
first_text (sibling (node is_text value (sibling (node true text more) rest)) ns) = some text
first_text (sibling (node is_text value (sibling (node false text more) rest)) ns) = none

-- `FirstChild()->Value()`, where there is a child.
unfoldable pub first_value : Nodes → Option Bytes
first_value no_nodes = none
first_value (sibling (node is_text value no_nodes) ns) = none
first_value (sibling (node is_text value (sibling n rest)) ns) = some (value_of n)
