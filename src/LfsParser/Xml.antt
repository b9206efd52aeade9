-- ===== src/LfsParser/Xml.antt =====
-- `parse_xml` of src/parsers/lfs_parser.py, over what lxml makes of the text.
pub mod Laws
pub mod Samples
use auto_lfs_builder.Prelude.{
  ◌≡◌, List, [], ◌∷◌, ◌++◌, map, Bool, true, false, not, ◌&&◌, ◌||◌, Option, none, some, nat_eq,
  list_eq, contains, if◌then◌else◌, Dict, insert,
}
use auto_lfs_builder.Text.{Text, codes, is_nil, strip, split_on}

-- A node that `tree.iter()` yields: an element, or a comment, a processing instruction or an
-- entity, whose `tag` is a function of lxml and no text.
pub data Node : Type 0 where
  element : (tag : Text) (text : Option Text) (attrib : Dict Text Text) → Node
  special : Node

-- What `etree.fromstring` does with `recover=True`: a tree, or `None` where nothing could be
-- recovered, with the messages of the error log, or an exception with its message.
pub data Parsed : Type 0 where
  tree : (error_log : List Text) (nodes : List Node) → Parsed
  nothing : (error_log : List Text) → Parsed
  syntax_error other_error : Text → Parsed

-- The parser, and the messages of the errors that Python raises for `None.iter()` and for
-- `'}' in tag` where the tag is no text.
pub record Lxml : Type 0 where
  pub fromstring : Text → Parsed
  pub no_iter : Text
  pub not_iterable : Text

pub record Entry : Type 0 where
  pub attributes : Dict Text Text
  pub text : Text

pub data Log : Type 0 where
  warning error : Text → Log

pub data Result : Type 0 where
  returned : Dict Text Entry → Result
  -- `XMLParseError`, with its message
  raised : Text → Result

-- `parts[-1]`
unfoldable pub last_part : List Text → Text
last_part [] = []
last_part (p ∷ []) = p
last_part (p ∷ q ∷ ps) = last_part (q ∷ ps)

unfoldable pub local_name : Text → Text
unfolding contains split_on last_part
local_name tag = if contains b'}' tag then last_part (split_on b'}' tag) else tag

unfoldable pub stripped_text : Option Text → Text
unfolding strip
stripped_text none = []
stripped_text (some t) = if is_nil t then [] else strip t

-- The loop over the nodes; `none` is the `TypeError` of the test for a namespace.
unfoldable pub convert : Dict Text Entry → List Node → Option (Dict Text Entry)
unfolding local_name stripped_text insert
convert result [] = some result
convert result (special ∷ nodes) = none
convert result (element tag text attrib ∷ nodes) =
    convert
      (if not (is_nil attrib) || not (is_nil (stripped_text text))
        then insert (local_name tag) (record { attributes = attrib; text = stripped_text text })
            result
        else result)
      nodes

unfoldable pub warnings : List Text → List Log
warnings log = map (λ m. warning (codes "XML parse warning: " ++ m)) log

-- The two handlers, each of which logs its message and raises it.
unfoldable pub failed : List Log → Text → List Log × Result
failed log message =
    let error_msg = codes "Failed to parse XML: " ++ message in
    (log ++ error error_msg ∷ [], raised error_msg)

unfoldable pub unexpected : List Log → Text → List Log × Result
unexpected log message =
    let error_msg = codes "Unexpected error parsing XML: " ++ message in
    (log ++ error error_msg ∷ [], raised error_msg)

unfoldable pub handle : Lxml → Parsed → List Log × Result
unfolding warnings failed unexpected
handle lxml (syntax_error message) = failed [] message
handle lxml (other_error message) = unexpected [] message
handle lxml (nothing log) = unexpected (warnings log) lxml.no_iter
handle lxml (tree log nodes) = elim (convert [] nodes) [
  | some result ↦ (warnings log, returned result)
  | none ↦ unexpected (warnings log) lxml.not_iterable
]

-- What is logged, and how the function ends.
unfoldable pub parse_xml : Lxml → Text → List Log × Result
unfolding handle
parse_xml lxml content = handle lxml (lxml.fromstring content)
