-- ===== src/Outside.antt =====
-- What the source calls and does not implement: the file system and the optional package
-- BeautifulSoup. They are parameters of the model, with no law assumed.
use auto_lfs_builder.Prelude.{List, Bool, Option}
use auto_lfs_builder.Text.{Text}

-- A path as the text that `str(path)` gives.
abbrev pub FilePath : Type 0
FilePath = Text

-- `none` stands for the exception that `read_text` raises.
pub record Files : Type 0 where
  pub exists : FilePath → Bool
  pub read_text : FilePath → Option Text

-- A parse tree is used through its searches only.
pub record BeautifulSoup : Type 1 where
  pub Html : Type 0
  pub Xml : Type 0
  pub Tag : Type 0
  -- `BeautifulSoup(text, "html.parser")`
  pub html_parser : Text → Html
  -- `soup.find_all("pre", class_="userinput")`
  pub find_pre_userinput : Html → List Tag
  -- `soup.find_all("userinput")`
  pub find_userinput : Html → List Tag
  -- `BeautifulSoup(text, "xml")`
  pub xml_parser : Text → Xml
  -- `soup.find_all("bridgehead")`
  pub find_bridgeheads : Xml → List Tag
  -- `bridge.find_next("segmentedlist", id=re.compile(r".*-depends$"))`
  pub find_next_depends : Tag → Option Tag
  -- `seglist.find("seg")`
  pub find_seg : Tag → Option Tag
  pub get_text : Tag → Text
