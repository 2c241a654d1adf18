-- ===== src/Setup/Restart.antt =====
-- What a server that is started again runs with.
use matrixserver.Common.{
  ◌≡◌, refl, ◌&&◌, Bool, true, List, [], ◌∷◌, Option, some, none, if◌then◌else◌,
}
use matrixserver.Protocol.{Text, text_eq, ServerConfig}
use matrixserver.Setup.Files.{Surroundings, etc_path, local_path, find_config_path, is_yes}

-- The files as they are after a write.
abbrev pub write_files : List (Text × Text) → (Text → Option Text) → Text → Option Text
write_files [] file path = file path
write_files ((name, content) ∷ files) file path =
    if text_eq path name then some content else write_files files file path

-- What protobuf documents of its JSON: a printed message is read back, whatever the message read into
-- held before.
pub record JsonLaw (w : Surroundings) (c : ServerConfig) : Type 0 where
  pub text : Text
  pub prints : w.to_json c ≡ some text
  pub reads : (before : ServerConfig) → w.from_json text before ≡ (true, c)

-- The surroundings of a later start: the files are the ones left, the terminal is another one.
abbrev pub later : Surroundings → List (Text × Text) → Bool → Text → Surroundings
later w files interactive answer = record w {
  file = write_files files w.file;
  is_interactive = interactive;
  answer = answer;
}

pub no_file :
    (w : Surroundings)
    → w.file etc_path ≡ none
    → w.file local_path ≡ none
    → find_config_path w [] ≡ []
unfolding find_config_path
no_file w e l = rw (e, l) refl

-- The file is written if the question is answered yes and the path can be written.
abbrev pub is_saved : Surroundings → Bool
is_saved w = is_yes w && w.can_write etc_path
