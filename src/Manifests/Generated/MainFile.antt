-- ===== src/Manifests/Generated/MainFile.antt =====
-- internal/manifests/ManifestCodegen.go, writeMainFile: the text of the generated program.
use microkube.Base.{String, [], ◌∷◌, if◌then◌else◌}
use microkube.Base.Texts.{◌++◌}
use microkube.Manifests.Codegen.{ManifestCodegen}
use microkube.Manifests.Generated.{lines, package_path}

abbrev main_head : String
main_head =
    (lines (
      "/*" ∷ " * THIS FILE IS AUTOGENERATED by github.com/vs-eth/microkube/cmd/codegen/Manifest.go"
      ∷ " * DO NOT TOUCH." ∷ " * In case of issues, please fix the code generator ;)" ∷ " */" ∷ ""
      ∷ "package main" ∷ "" ∷ "import (" ∷ "\t\"flag\"" ∷ "\t\"github.com/mitchellh/go-homedir\""
      ∷ "\tlog \"github.com/sirupsen/logrus\"" ∷ "\t\"github.com/vs-eth/microkube/internal/cmd\""
      ∷ []))
    ++ "\t\""

abbrev time_import : String
time_import = (lines ("\"" ∷ [])) ++ "\t\"time"

abbrev main_body : String
main_body =
    (lines (
      "\"" ∷ ")" ∷ "" ∷ "func main() {"
      ∷ "\tkubeconfig := flag.String(\"kubeconfig\", \"~/.mukube/kube/kubeconfig\", \"Path to Kubeconfig\")"
      ∷ "\targ := cmd.ArgHandler{}" ∷ "\tkmri := manifests.KubeManifestRuntimeInfo{"
      ∷ "\t\tExecEnv: *arg.HandleArgs()," ∷ "\t}" ∷ "\tvar err error"
      ∷ "\t*kubeconfig, err = homedir.Expand(*kubeconfig)" ∷ "\tif err != nil {"
      ∷ "\t\tlog.WithError(err).WithField(\"root\", *kubeconfig).Fatal(\"Couldn't expand kubeconfig\")"
      ∷ "\t}" ∷ []))
    ++ "\tobj, err := "

abbrev main_apply : String
main_apply =
    (lines (
      "(kmri)" ∷ "\tif err != nil {"
      ∷ "\t\tlog.WithError(err).WithField(\"root\", *kubeconfig).Fatal(\"Couldn't init object\")"
      ∷ "\t}" ∷ "\terr = obj.ApplyToCluster(*kubeconfig)" ∷ "\tif err != nil {"
      ∷ "\t\tlog.WithError(err).WithField(\"root\", *kubeconfig).Fatal(\"Couldn't apply object to cluster\")"
      ∷ []))
    ++ "\t}"

abbrev main_health : String
main_health =
    (lines (
      "" ∷ "\terr = obj.InitHealthCheck(*kubeconfig)" ∷ "\tif err != nil {"
      ∷ "\t\tlog.WithError(err).WithField(\"root\", *kubeconfig).Fatal(\"Couldn't enable health checks\")"
      ∷ "\t}" ∷ "\tok := false" ∷ "\tfor i := 0; i < 10 && !ok; i++ {"
      ∷ "\t\tok, err = obj.IsHealthy()" ∷ "\t\tif err != nil {"
      ∷ "\t\t\tlog.WithError(err).WithField(\"root\", *kubeconfig).Fatal(\"Couldn't enable health checks\")"
      ∷ "\t\t}" ∷ "\t\tif ok {" ∷ "\t\t\tbreak" ∷ "\t\t}" ∷ "\t\ttime.Sleep(1 * time.Second)"
      ∷ "\t}" ∷ []))
    ++ "\tlog.WithField(\"status\", ok).Info(\"Health check done\")"

abbrev main_end : String
main_end = lines ("" ∷ "}" ∷ [])

-- writeMainFile
unfoldable pub write_main_file : ManifestCodegen → String
write_main_file m =
    main_head
    ++ package_path m
    ++ (if m.has_health_check then time_import else "")
    ++ main_body
    ++ m.pkg
    ++ ".New"
    ++ m.name
    ++ main_apply
    ++ (if m.has_health_check then main_health else "")
    ++ main_end
